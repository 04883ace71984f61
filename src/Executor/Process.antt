-- ===== src/Executor/Process.antt =====
-- pkg/executor/processor.go: the transactions of a block are applied in their order, and the state
-- and the receipts stored.
pub mod Receipts
pub mod Carried
pub mod Store
pub mod Apart
pub mod States
pub mod Moved
pub mod Replay
pub mod Reread
use evm_executor.Prelude.{ℕ, zero, suc, ◌+◌, ◌-◌, ◌%◌, Option, none, some, List, [], ◌∷◌}
use evm_executor.Deps
use evm_executor.Storage.Redis.{Error, Result, ok, err}
use evm_executor.Storage.Ops.{Hash}
use evm_executor.Storage.Blocks.{get_block, store_receipts}
use evm_executor.State.Db.{PikaStateDb, word, new_pika_state_db}
use evm_executor.State.Write.{set_tx_context}
use evm_executor.State.Commit.{commit}
use evm_executor.Executor.Deps.{Receipt, ChainDeps, block_deps}
use evm_executor.Executor.Apply.{Applied, apply_transaction}

-- `CacheConfig`
pub record CacheConfig : Type 0 where
  pub state_cache_size : ℕ
  pub storage_cache_size : ℕ
  pub code_cache_size : ℕ

-- The errors of `ProcessBlock`, by the step that failed.
pub data ProcessError : Type 0 where
  block_error : Error → ProcessError
  state_error : ProcessError
  commit_error : Error → ProcessError
  receipts_error : Error → ProcessError

-- What `ProcessBlock` returns: the receipts and the gas, or an error.
pub data ProcessResult : Type 0 where
  processed : List Receipt → ℕ → ProcessResult
  failed : ProcessError → ProcessResult

-- What the loop over the transactions leaves.
pub record Processed {d : Deps.Deps} (c : ChainDeps d) : Type 0 where
  pub receipts : List Receipt
  pub used_gas : ℕ
  pub pool : c.GasPool
  pub state : PikaStateDb d

module _ {d : Deps.Deps} (c : ChainDeps d) where
  -- The receipt of the transaction with number `i`, if it could not be applied.
  unfoldable pub failed_receipt : c.Block → ℕ → c.Transaction → ℕ → Receipt
  failed_receipt block i tx used_gas = record {
    tx_type = c.type_of tx;
    post_state = [];
    status = 0;
    cumulative_gas_used = used_gas;
    logs = [];
    tx_hash = c.hash_transaction tx;
    contract_address = 0;
    gas_used = 0;
    block_hash = c.block_hash block;
    block_number = (c.header_fields (c.block_header block)).number;
    transaction_index = i;
  }

  abbrev pub receipt_or : Option Receipt → Receipt → Receipt
  receipt_or none r = r
  receipt_or (some r) _ = r

  -- `receipt.BlockHash = …`, `receipt.BlockNumber = …` and `receipt.TransactionIndex = …`
  abbrev pub in_block : c.Block → ℕ → Receipt → Receipt
  in_block block i r = record r {
    block_hash = c.block_hash block;
    block_number = (c.header_fields (c.block_header block)).number;
    transaction_index = i;
  }

  -- One round of the loop of `processTransactions`: its receipt, and what the call left.
  unfoldable pub process_transaction :
      d.redis.Db → c.Block → ℕ → c.Transaction → ℕ → c.GasPool → PikaStateDb d → Receipt × Applied c
  process_transaction db block i tx used_gas pool s =
      let applied =
        apply_transaction c db (c.block_header block) tx used_gas pool
          (set_tx_context s (c.hash_transaction tx) i) in
      (
        in_block block i (receipt_or applied.receipt (failed_receipt block i tx applied.used_gas)),
        applied,
      )

  -- The loop, from the transaction with number `i` on.
  unfoldable pub process_from :
      d.redis.Db → c.Block → ℕ → List c.Transaction → ℕ → c.GasPool → PikaStateDb d → Processed c
  process_from db block i [] used_gas pool s = record {
    receipts = [];
    used_gas = used_gas;
    pool = pool;
    state = s;
  }
  process_from db block i (tx ∷ txs) used_gas pool s =
      let (receipt, applied) = process_transaction db block i tx used_gas pool s in
      let rest = process_from db block (i + 1) txs applied.used_gas applied.pool applied.state in
      record rest { receipts = receipt ∷ rest.receipts }

  -- `processTransactions`, which returns no error
  unfoldable pub process_transactions : d.redis.Db → c.Block → PikaStateDb d → Processed c
  process_transactions db block s =
      process_from db block 0 (c.block_transactions block) 0 (c.gas_pool (c.block_gas_limit block))
        s

  abbrev pub stored_block :
      Processed c → d.redis.Db × Result (Unit {0}) → d.redis.Db × ProcessResult
  stored_block p (db, ok _) = (db, processed p.receipts p.used_gas)
  stored_block p (db, err e) = (db, failed (receipts_error e))

  -- `StoreReceipts` after a `Commit` without an error.
  abbrev pub finish_block :
      ℕ → Processed c → PikaStateDb d × Result (Unit {0}) → d.redis.Db × ProcessResult
  finish_block block_num p (s, err e) = (s.db, failed (commit_error e))
  finish_block block_num p (s, ok _) =
      stored_block p (store_receipts (block_deps c) s.db block_num p.receipts)

  -- `ProcessBlock`: the store, and what is returned
  unfoldable pub process_block : CacheConfig → d.redis.Db → ℕ → d.redis.Db × ProcessResult
  process_block caches db block_num = elim (get_block (block_deps c) db block_num) [
    | err e ↦ (db, failed (block_error e))
    | ok block ↦
        elim (new_pika_state_db d db ((block_num + word - 1) % word) caches.state_cache_size
          caches.storage_cache_size caches.code_cache_size) [
            | none ↦ (db, failed state_error)
            | some s ↦
                let p = process_transactions db block s in finish_block block_num p (commit p.state)
          ]
  ]
