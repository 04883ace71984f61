-- ===== src/Executor/Process/Reread.antt =====
-- What GetReceipts of pkg/storage/block.go returns of the receipts of ProcessBlock of
-- pkg/executor/processor.go.
use mathlib.Core.Path.{subst}
use evm_executor.Prelude.{ℕ, ◌+◌, ◌<◌, ◌≡◌, sym, List, [], ◌∷◌, arith}
use evm_executor.Deps
use evm_executor.Storage.Redis.{ok, client_get}
use evm_executor.Storage.Blocks.{get_receipts}
use evm_executor.State.Db.{PikaStateDb}
use evm_executor.Executor.Deps.{Receipt, ChainDeps, block_deps, IsChainDeps}
use evm_executor.Executor.Codec.{consensus, AreKnown, IsReceiptCodec}
use evm_executor.Executor.Apply.{apply_transaction, apply_message_of, settle, make_receipt}
use evm_executor.Executor.Process.{
  CacheConfig, failed_receipt, process_transaction, process_from, process_transactions, processed,
  process_block,
}
use evm_executor.Executor.Process.Store.{process_block-Went, receipts_text}

module _ {d : Deps.Deps} (c : ChainDeps d) (codec : IsReceiptCodec c) (db : d.redis.Db)
    (block : c.Block) where
  process_transaction-known :
      (i : ℕ) (tx : c.Transaction) (used_gas : ℕ) (pool : c.GasPool) (s : PikaStateDb d)
      → ((process_transaction c db block i tx used_gas pool s).0.tx_type < 4)
        × ((process_transaction c db block i tx used_gas pool s).0.post_state ≡ [])
  unfolding process_transaction apply_transaction apply_message_of settle make_receipt
      failed_receipt
  process_transaction-known i tx used_gas pool s = ground (arith, codec.known_type tx)

  process_from-AreKnown :
      (i : ℕ) (txs : List c.Transaction) (used_gas : ℕ) (pool : c.GasPool) (s : PikaStateDb d)
      → AreKnown (process_from c db block i txs used_gas pool s).receipts
  unfolding process_from
  process_from-AreKnown i [] used_gas pool s = tt
  process_from-AreKnown i (tx ∷ txs) used_gas pool s =
      let (known, rootless) = process_transaction-known i tx used_gas pool s in
      let a = (process_transaction c db block i tx used_gas pool s).1 in
      (known, rootless, process_from-AreKnown (i + 1) txs a.used_gas a.pool a.state)

  process_transactions-AreKnown :
      (s : PikaStateDb d) → AreKnown (process_transactions c db block s).receipts
  unfolding process_transactions
  process_transactions-AreKnown s = process_from-AreKnown 0 _ 0 _ s

-- The defect: after ProcessBlock without an error, GetReceipts returns of the block's receipts
-- the consensus fields only (the type, the status, the cumulative gas, and the address, topics
-- and data of the logs); their transaction's hash and index, gas, block and contract address read
-- as zero.
pub get_receipts-process_block :
    {d : Deps.Deps} {c : ChainDeps d}
    → IsChainDeps c
    → IsReceiptCodec c
    → (caches : CacheConfig) (db : d.redis.Db) (n gas : ℕ) (rs : List Receipt)
    → (process_block c caches db n).1 ≡ processed rs gas
    → get_receipts (block_deps c) (process_block c caches db n).0 n ≡ ok (consensus rs)
unfolding get_receipts client_get
get_receipts-process_block {d} {c} laws codec caches db n gas rs e =
    let (block, s, found, opened, went) = process_block-Went c caches db n rs gas e in
    let (t, encoded, here) = receipts_text laws caches db n gas rs e in
    let known : AreKnown rs =
      subst AreKnown (sym went.receipts) (process_transactions-AreKnown c codec db block s) in
    ground (arith, here, codec.reads_consensus rs t known encoded)
