-- ===== src/Storage/Key/Kinds.antt =====
-- The first letters of the keys: those of pkg/storage/state.go beside those of pkg/storage/block.go.
use evm_executor.Prelude.{ℕ, ◌≡◌, [], ◌∷◌, arith}
use evm_executor.Storage.Redis.{Text}
use evm_executor.Storage.Key.{account_key, storage_key, code_key, state_root_key}
use evm_executor.Storage.Key.Faithful.{
  StateKey, account, storage, contract_code, state_root, render,
}

abbrev pub first : Text → ℕ
first [] = 0
first (c ∷ cs) = c

-- Every key of the state begins with an s.
pub first-render :
    (hex_address hex_hash : ℕ → Text) (k : StateKey) → first (render hex_address hex_hash k) ≡ b's'
unfolding render account_key storage_key code_key state_root_key
first-render hex_address hex_hash (account n a) = ground arith
first-render hex_address hex_hash (storage n a x) = ground arith
first-render hex_address hex_hash (contract_code h) = ground arith
first-render hex_address hex_hash (state_root n) = ground arith
