-- ===== src/Storage/Key.antt =====
-- The keys of pkg/storage/state.go and pkg/storage/block.go.
pub mod Decimal
pub mod Faithful
pub mod Kinds
use Prim.Native.Char.{code}
use Prim.Native.String.{String}
use evm_executor.Prelude.{ℕ, List, [], ◌∷◌, ◌++◌, ◌==◌, if◌then◌else◌}
use evm_executor.Storage.Redis.{Text}
use Decimal.{decimal}

-- The bytes of an ASCII text.
abbrev pub codes : String → Text
codes String.[] = []
codes (String.◌∷◌ c s) = code c ∷ codes s

-- A prefix and a number, as `fmt.Sprintf` writes the keys of pkg/storage/block.go.
unfoldable pub number_key : String → ℕ → Text
number_key prefix n = codes prefix ++ decimal n

-- `hex_address` and `hex_hash` are `addr.Hex()` and `hash.Hex()` of go-ethereum.
module _ (hex_address hex_hash : ℕ → Text) where
  unfoldable pub account_key : ℕ → ℕ → Text
  unfolding decimal
  account_key block_num addr =
      if block_num == 0
      then codes "st:latest:acc:" ++ hex_address addr
      else codes "st:" ++ (decimal block_num ++ (codes ":acc:" ++ hex_address addr))

  unfoldable pub storage_key : ℕ → ℕ → ℕ → Text
  unfolding decimal
  storage_key block_num addr key =
      if block_num == 0
      then codes "st:latest:stor:" ++ (hex_address addr ++ (codes ":" ++ hex_hash key))
      else codes "st:"
        ++ (decimal block_num
            ++ (codes ":stor:" ++ (hex_address addr ++ (codes ":" ++ hex_hash key))))

  unfoldable pub code_key : ℕ → Text
  code_key code_hash = codes "st:code:" ++ hex_hash code_hash

  pub state_root_key : ℕ → Text
  unfolding decimal
  state_root_key block_num = codes "st:root:" ++ decimal block_num

  -- the `storageKey` of pkg/state/statedb.go, a key of its cache
  unfoldable pub cache_key : ℕ → ℕ → Text
  cache_key addr key = hex_address addr ++ (codes ":" ++ hex_hash key)
