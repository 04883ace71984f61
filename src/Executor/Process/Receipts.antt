-- ===== src/Executor/Process/Receipts.antt =====
-- The receipts that `processTransactions` of pkg/executor/processor.go makes, beside the transactions.
use evm_executor.Prelude.{ℕ, ◌+◌, ◌%◌, ◌<◌, ◌≡◌, refl, List, [], ◌∷◌, arith}
use evm_executor.Deps
use evm_executor.State.Db.{PikaStateDb, word}
use evm_executor.Executor.Deps.{Receipt, ChainDeps}
use evm_executor.Executor.Apply.{apply_transaction, apply_message_of, settle, make_receipt}
use evm_executor.Executor.Process.{
  failed_receipt, process_transaction, process_from, process_transactions,
}

module _ {d : Deps.Deps} (c : ChainDeps d) (block : c.Block) where
  -- A receipt of the transaction with number `i`, where the transactions before it took `used_gas`.
  pub record IsReceipt (i : ℕ) (tx : c.Transaction) (used_gas : ℕ) (r : Receipt) : Type 0 where
    pub tx_hash : r.tx_hash ≡ c.hash_transaction tx
    pub tx_type : r.tx_type ≡ c.type_of tx
    pub index : r.transaction_index ≡ i
    pub block_hash : r.block_hash ≡ c.block_hash block
    pub block_number : r.block_number ≡ (c.header_fields (c.block_header block)).number
    pub cumulative : r.cumulative_gas_used ≡ (used_gas + r.gas_used) % word

  -- One receipt for each transaction, in their order; `total` is the gas of them all.
  abbrev pub AreReceipts : ℕ → List c.Transaction → ℕ → List Receipt → ℕ → Type 0
  AreReceipts i [] used_gas [] total = used_gas ≡ total
  AreReceipts i (tx ∷ txs) used_gas (r ∷ rs) total =
      IsReceipt i tx used_gas r × AreReceipts (i + 1) txs r.cumulative_gas_used rs total
  AreReceipts i txs used_gas rs total = ⊥

  process_transaction-IsReceipt :
      (db : d.redis.Db) (i : ℕ) (tx : c.Transaction) (used_gas : ℕ) (pool : c.GasPool)
      (s : PikaStateDb d)
      → used_gas < word
      → IsReceipt i tx used_gas (process_transaction c db block i tx used_gas pool s).0
        × ((process_transaction c db block i tx used_gas pool s).0.cumulative_gas_used
            ≡ (process_transaction c db block i tx used_gas pool s).1.used_gas)
  unfolding process_transaction apply_transaction apply_message_of settle make_receipt
      failed_receipt
  process_transaction-IsReceipt db i tx used_gas pool s small = ground arith

  process_from-AreReceipts :
      (db : d.redis.Db) (i : ℕ) (txs : List c.Transaction) (used_gas : ℕ) (pool : c.GasPool)
      (s : PikaStateDb d)
      → used_gas < word
      → AreReceipts i txs used_gas
          (process_from c db block i txs used_gas pool s).receipts
          (process_from c db block i txs used_gas pool s).used_gas
  unfolding process_from
  process_from-AreReceipts db i [] used_gas pool s small = refl
  process_from-AreReceipts db i (tx ∷ txs) used_gas pool s small =
      let (first, same) = process_transaction-IsReceipt db i tx used_gas pool s small in
      let a = (process_transaction c db block i tx used_gas pool s).1 in
      let rest =
        process_from-AreReceipts db (i + 1) txs a.used_gas a.pool a.state
          (omega (arith, same, first.cumulative)) in
      (first, rw same rest)

  -- `processTransactions` makes one receipt for each transaction of the block, in their order, also
  -- for those that fail: with the hash, the type and the number of the transaction, the block's hash
  -- and number, and a cumulative gas that adds its own, in 64 bits, to that of the receipt before;
  -- the last one is the gas that is returned.
  pub process_transactions-AreReceipts :
      (db : d.redis.Db) (s : PikaStateDb d)
      → AreReceipts 0
          (c.block_transactions block)
          0
          (process_transactions c db block s).receipts
          (process_transactions c db block s).used_gas
  unfolding process_transactions
  process_transactions-AreReceipts db s =
      process_from-AreReceipts db 0 (c.block_transactions block) 0
        (c.gas_pool (c.block_gas_limit block)) s (omega arith)
