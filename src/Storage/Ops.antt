-- ===== src/Storage/Ops.antt =====
-- The data of pkg/storage/state.go: stored accounts and the operations of a batch.
use evm_executor.Prelude.{ℕ, ◌*◌, ◌^◌}
use evm_executor.Prelude.Int.{ℤ}
use evm_executor.Storage.Redis.{Text}

-- `common.Address` and `common.Hash`, byte arrays of fixed length, as the numbers that they spell
-- in big-endian order; the zero value `common.Hash{}` is 0.
abbrev pub Address : Type 0
Address = ℕ

abbrev pub Hash : Type 0
Hash = ℕ

-- `StateHistoryTTL`, 60 minutes in nanoseconds
abbrev pub state_history_ttl : ℕ
state_history_ttl = 60 * 60 * 10 ^ 9

-- `storage.Account`
pub record StoredAccount : Type 0 where
  pub balance : ℤ
  pub nonce : ℕ
  pub code_hash : Hash
  pub storage_root : Hash

-- `WriteOp`, with a constructor for each `WriteOpType` that holds the fields of that type.
pub data WriteOp : Type 0 where
  write_account : ℕ → Address → StoredAccount → WriteOp
  write_storage : ℕ → Address → Hash → Hash → WriteOp
  write_code : Hash → Text → WriteOp
