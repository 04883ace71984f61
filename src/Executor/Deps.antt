-- ===== src/Executor/Deps.antt =====
-- The third-party code under pkg/executor, as parameters: go-ethereum's blocks, headers, transactions
-- and receipts with their codecs, and the application of a message to the state database by its EVM.
use evm_executor.Prelude.{ℕ, ◌≡◌, Bool, Option, List, Map}
use evm_executor.Prelude.Int.{ℤ}
use evm_executor.Deps
use evm_executor.Storage.Redis.{Text}
use evm_executor.Storage.Ops.{Address, Hash}
use evm_executor.Storage.Blocks.{Progress, BlockDeps}
use evm_executor.Storage.Blocks.Stored.{IsBlockDeps}
use evm_executor.State.Db.{Log, PikaStateDb}
use evm_executor.State.Commit.Written.{IsMaps}
use evm_executor.State.Frame.Carries.{Carries}
use evm_executor.State.Frame.Moved.{Agree, moved}

-- The fields of `types.Header` that pkg/executor reads.
pub record HeaderFields : Type 0 where
  pub parent_hash : Hash
  pub coinbase : Address
  pub number : ℕ
  pub time : ℕ
  pub difficulty : ℤ
  pub base_fee : Option ℤ
  pub gas_limit : ℕ
  pub gas_used : ℕ

-- The fields of `types.Receipt` that pkg/executor writes; the status is 1 for a success, else 0.
pub record Receipt : Type 0 where
  pub tx_type : ℕ
  pub post_state : Text
  pub status : ℕ
  pub cumulative_gas_used : ℕ
  pub logs : List Log
  pub tx_hash : Hash
  pub contract_address : Address
  pub gas_used : ℕ
  pub block_hash : Hash
  pub block_number : ℕ
  pub transaction_index : ℕ

-- `core.ExecutionResult`
pub record ExecutionResult : Type 0 where
  pub used_gas : ℕ
  pub failed : Bool

-- `vm.BlockContext`, but go-ethereum's own functions for transfers; `get_hash` takes and returns the
-- cache of the closure that `GetHashFn` makes.
pub record BlockContext : Type 0 where
  pub get_hash : Map Hash → ℕ → Hash × Map Hash
  pub coinbase : Address
  pub block_number : ℕ
  pub time : ℕ
  pub difficulty : ℤ
  pub base_fee : Option ℤ
  pub gas_limit : ℕ

-- `to_message` is `core.TransactionToMessage` with the signer that `types.MakeSigner` makes for the
-- block; `apply_message` is `core.ApplyMessage` on a new EVM with its state, and answers `none` for an
-- error; the gas pool that it leaves and the state stand beside the answer.
pub record ChainDeps (d : Deps.Deps) : Type 1 where
  pub Header : Type 0
  pub Transaction : Type 0
  pub Block : Type 0
  pub Message : Type 0
  pub GasPool : Type 0
  pub header_fields : Header → HeaderFields
  pub hash_header : Header → Hash
  pub new_block : Header → List Transaction → Option Block
  pub block_header : Block → Header
  pub block_hash : Block → Hash
  pub block_gas_limit : Block → ℕ
  pub block_transactions : Block → List Transaction
  pub hash_transaction : Transaction → Hash
  pub type_of : Transaction → ℕ
  pub nonce_of : Transaction → ℕ
  pub to_message : Header → Transaction → Option Message
  pub recipient : Message → Option Address
  pub origin : Message → Address
  pub create_address : Address → ℕ → Address
  pub gas_pool : ℕ → GasPool
  pub apply_message :
      BlockContext
      → Message
      → GasPool
      → PikaStateDb d
      → Option ExecutionResult × GasPool × PikaStateDb d
  pub decode_header : Text → Option Header
  pub decode_transactions : Text → Option (List Transaction)
  pub encode_receipts : List Receipt → Option Text
  pub decode_receipts : Text → Option (List Receipt)
  pub marshal_progress : Progress → Option Text
  pub unmarshal_progress : Text → Option Progress
  pub unmarshal_synced : Text → Option ℕ
  pub scan_number : Text → Option ℕ

-- What the block storage of pkg/storage/block.go is built on.
abbrev pub block_deps : {d : Deps.Deps} → ChainDeps d → BlockDeps
block_deps {d} c = record {
  redis = d.redis;
  Header = c.Header;
  Transactions = List c.Transaction;
  Block = c.Block;
  Receipts = List Receipt;
  new_block = c.new_block;
  decode_header = c.decode_header;
  decode_transactions = c.decode_transactions;
  encode_receipts = c.encode_receipts;
  decode_receipts = c.decode_receipts;
  marshal_progress = c.marshal_progress;
  unmarshal_progress = c.unmarshal_progress;
  unmarshal_synced = c.unmarshal_synced;
  scan_number = c.scan_number;
  hex_hash = d.hex_hash;
}

-- What the program relies on: the codec of the progress reads back what it wrote, and the EVM reaches the state by
-- the methods of the state database only, none of which but `Commit` writes to the store.
pub record IsChainDeps {d : Deps.Deps} (c : ChainDeps d) : Type 0 where
  pub blocks : IsBlockDeps (block_deps c)
  pub carries :
      (context : BlockContext) (message : c.Message) (pool : c.GasPool) (s : PikaStateDb d)
      → IsMaps s
      → Carries s (c.apply_message context message pool s).2

-- The EVM reads the store by the methods of the state database only: over another store that answers
-- alike at the block of the state it does the same.
pub record IsStateReader {d : Deps.Deps} (c : ChainDeps d) : Type 0 where
  pub alike :
      (context : BlockContext) (message : c.Message) (pool : c.GasPool) (s : PikaStateDb d)
      (db' : d.redis.Db)
      → IsMaps s
      → Agree d s.block_number s.db db'
      → c.apply_message context message pool (moved db' s)
        ≡ (let r = c.apply_message context message pool s in (r.0, r.1, moved db' r.2))
