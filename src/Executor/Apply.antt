-- ===== src/Executor/Apply.antt =====
-- pkg/executor/apply.go: a transaction is applied to the state database, and its receipt made.
use evm_executor.Prelude.{ℕ, ◌+◌, ◌%◌, Bool, true, false, Option, none, some, [], length}
use evm_executor.Deps
use evm_executor.Storage.Ops.{Address}
use evm_executor.State.Db.{PikaStateDb, word}
use evm_executor.State.Read.{get_logs, get_tx_index_internal}
use evm_executor.State.Write.{set_tx_context}
use evm_executor.Executor.Deps.{Receipt, ExecutionResult, BlockContext, ChainDeps, block_deps}
use evm_executor.Executor.Hashes.{get_hash}

-- What a call of `ApplyTransaction` leaves: its receipt, or `none` for an error, `*usedGas`, the gas
-- pool and the state.
pub record Applied {d : Deps.Deps} (c : ChainDeps d) : Type 0 where
  pub receipt : Option Receipt
  pub used_gas : ℕ
  pub pool : c.GasPool
  pub state : PikaStateDb d

abbrev pub status_of : Bool → ℕ
status_of true = 0
status_of false = 1

module _ {d : Deps.Deps} (c : ChainDeps d) where
  -- `NewEVMBlockContext`; the chain context reads headers from the store `db`
  unfoldable pub new_evm_block_context : d.redis.Db → c.Header → Option Address → BlockContext
  new_evm_block_context db header author =
      let fields = c.header_fields header in
      record {
        get_hash = get_hash (block_deps c) c.hash_header db fields.parent_hash;
        coinbase = elim author [ none ↦ fields.coinbase | some a ↦ a ];
        block_number = fields.number;
        time = fields.time;
        difficulty = fields.difficulty;
        base_fee = fields.base_fee;
        gas_limit = fields.gas_limit;
      }

  -- The receipt of a message that was applied; `state` is the one after it, `used_gas` the block's.
  unfoldable pub make_receipt :
      c.Header → c.Transaction → c.Message → ExecutionResult → ℕ → PikaStateDb d → Receipt
  make_receipt header tx message result used_gas state =
      let number = (c.header_fields header).number in
      let hash = c.hash_header header in
      record {
        tx_type = c.type_of tx;
        post_state = [];
        status = status_of result.failed;
        cumulative_gas_used = used_gas;
        logs = (get_logs state (c.hash_transaction tx) number hash).0;
        tx_hash = c.hash_transaction tx;
        contract_address = elim (c.recipient message) [
          | none ↦ c.create_address (c.origin message) (c.nonce_of tx)
          | some _ ↦ 0
        ];
        gas_used = result.used_gas;
        block_hash = hash;
        block_number = number;
        transaction_index = get_tx_index_internal state;
      }

  -- The end of `applyTransaction`, by the answer of `core.ApplyMessage`.
  unfoldable pub settle :
      c.Header
      → c.Transaction
      → c.Message
      → ℕ
      → Option ExecutionResult
      → c.GasPool
      → PikaStateDb d
      → Applied c
  settle header tx message used_gas none pool state = record {
    receipt = none;
    used_gas = used_gas;
    pool = pool;
    state = state;
  }
  settle header tx message used_gas (some result) pool state =
      let total = (used_gas + result.used_gas) % word in
      let receipt = make_receipt header tx message result total state in
      record {
        receipt = some receipt;
        used_gas = total;
        pool = pool;
        state =
            (get_logs state (c.hash_transaction tx) (c.header_fields header).number
              (c.hash_header header)).1;
      }

  -- `applyTransaction`: the first `SetTxContext` takes the number of the logs for the index.
  unfoldable pub apply_message_of :
      BlockContext
      → c.Header
      → c.Transaction
      → c.Message
      → ℕ
      → c.GasPool
      → PikaStateDb d
      → Applied c
  apply_message_of context header tx message used_gas pool s =
      let hash = c.hash_transaction tx in
      let (logs, s') = get_logs s hash (c.header_fields header).number (c.hash_header header) in
      let applied = c.apply_message context message pool (set_tx_context s' hash (length logs)) in
      settle header tx message used_gas applied.0 applied.1 applied.2

  -- `ApplyTransaction`
  unfoldable pub apply_transaction :
      d.redis.Db → c.Header → c.Transaction → ℕ → c.GasPool → PikaStateDb d → Applied c
  apply_transaction db header tx used_gas pool s = elim (c.to_message header tx) [
    | none ↦ record { receipt = none; used_gas = used_gas; pool = pool; state = s }
    | some message ↦
        let coinbase = (c.header_fields header).coinbase in
        apply_message_of (new_evm_block_context db header (some coinbase)) header tx message
          used_gas pool s
  ]
