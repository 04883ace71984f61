-- ===== src/Executor/Process/Moved.antt =====
-- The transactions of a block (pkg/executor/processor.go) over two stores that read alike.
use evm_executor.Prelude.{
  ℕ, ◌+◌, ◌%◌, ◌≡◌, refl, ap, ◌∙◌, Option, none, some, List, [], ◌∷◌, Map, length, lookup, arith,
  Option-cases, inl, inr,
}
use evm_executor.Deps
use evm_executor.Storage.Ops.{Address, Hash}
use evm_executor.Storage.Blocks
use evm_executor.State.Db.{Log, PikaStateDb, word}
use evm_executor.State.Read.{get_logs}
use evm_executor.State.Write.{set_tx_context}
use evm_executor.State.Commit.Written.{IsMaps}
use evm_executor.State.Frame.Carries.{Carries-trans}
use evm_executor.State.Frame.Moved.{Agree, moved}
use evm_executor.State.Frame.Moved.Runs.{carried}
use evm_executor.Executor.Deps.{
  Receipt, ExecutionResult, BlockContext, ChainDeps, block_deps, IsChainDeps, IsStateReader,
}
use evm_executor.Executor.Hashes.{get_header, get_hash}
use evm_executor.Executor.Apply.{
  Applied, new_evm_block_context, make_receipt, settle, apply_message_of, apply_transaction,
}
use evm_executor.Executor.Process.{
  Processed, in_block, receipt_or, failed_receipt, process_transaction, process_from,
  process_transactions,
}
use evm_executor.Executor.Process.Carried.{
  get_logs-Carries, set_tx_context-Carries, process_transaction-Carries,
}

module _ {d : Deps.Deps} (db' : d.redis.Db) where
  get_logs-moved :
      (s : PikaStateDb d) (h : Hash) (n : ℕ) (b : Hash)
      → get_logs (moved db' s) h n b ≡ ((get_logs s h n b).0, moved db' (get_logs s h n b).1)
  unfolding get_logs
  get_logs-moved s h n b = elim (Option-cases (lookup h s.logs)) [
    | inl missing ↦ ground arith
    | inr (logs, found) ↦ ground arith
  ]

abbrev pub applied_moved : {d : Deps.Deps} {c : ChainDeps d} → d.redis.Db → Applied c → Applied c
applied_moved db' a = record a { state = moved db' a.state }

abbrev pub processed_moved :
    {d : Deps.Deps} {c : ChainDeps d} → d.redis.Db → Processed c → Processed c
processed_moved db' p = record p { state = moved db' p.state }

module _ {d : Deps.Deps} (c : ChainDeps d) (db db' : d.redis.Db)
    (same : (n : ℕ)
      → Blocks.get_header (block_deps c) db' n ≡ Blocks.get_header (block_deps c) db n) where
  get_hash-same :
      (parent : Hash) (cache : Map Hash) (n : ℕ)
      → get_hash (block_deps c) c.hash_header db' parent cache n
        ≡ get_hash (block_deps c) c.hash_header db parent cache n
  unfolding get_hash get_header
  get_hash-same parent cache n = ground (arith, same n)

  -- The same headers give the EVM the same block hashes.
  new_evm_block_context-same :
      (header : c.Header) (author : Option Address)
      → new_evm_block_context c db' header author ≡ new_evm_block_context c db header author
  unfolding new_evm_block_context
  new_evm_block_context-same header author =
      ap
        (λ (g : Map Hash → ℕ → Hash × Map Hash). record (new_evm_block_context c db header author) {
          get_hash = g;
        })
        (λ i cache n. get_hash-same (c.header_fields header).parent_hash cache n i)

module _ {d : Deps.Deps} (c : ChainDeps d) (db' : d.redis.Db) (header : c.Header)
    (tx : c.Transaction) (message : c.Message) where
  make_receipt-moved :
      (result : ExecutionResult) (used_gas : ℕ) (s : PikaStateDb d)
      → make_receipt c header tx message result used_gas (moved db' s)
        ≡ make_receipt c header tx message result used_gas s
  unfolding make_receipt
  make_receipt-moved result used_gas s =
      ap
        (λ (logs : List Log). record (make_receipt c header tx message result used_gas s) {
          logs = logs;
        })
        (ap (λ r. r.0)
          (get_logs-moved db' s (c.hash_transaction tx) (c.header_fields header).number
            (c.hash_header header)))

  settle-moved :
      (used_gas : ℕ) (answer : Option ExecutionResult) (pool : c.GasPool) (s : PikaStateDb d)
      → settle c header tx message used_gas answer pool (moved db' s)
        ≡ applied_moved db' (settle c header tx message used_gas answer pool s)
  unfolding settle
  settle-moved used_gas none pool s = refl
  settle-moved used_gas (some result) pool s = λ i. record {
    receipt = some (make_receipt-moved result ((used_gas + result.used_gas) % word) s i);
    used_gas = (used_gas + result.used_gas) % word;
    pool = pool;
    state =
        (get_logs-moved db' s (c.hash_transaction tx) (c.header_fields header).number
          (c.hash_header header) i).1;
  }

  module _ (laws : IsChainDeps c) (reader : IsStateReader c) where
    apply_message_of-moved :
        (context : BlockContext) (used_gas : ℕ) (pool : c.GasPool) (s : PikaStateDb d)
        → IsMaps s
        → Agree d s.block_number s.db db'
        → apply_message_of c context header tx message used_gas pool (moved db' s)
          ≡ applied_moved db' (apply_message_of c context header tx message used_gas pool s)
    unfolding apply_message_of
    apply_message_of-moved context used_gas pool s maps agree =
        let hash = c.hash_transaction tx in
        let r = get_logs s hash (c.header_fields header).number (c.hash_header header) in
        let h =
          get_logs-Carries s hash (c.header_fields header).number (c.hash_header header) maps in
        let s' = set_tx_context r.1 hash (length r.0) in
        let i = Carries-trans h (set_tx_context-Carries r.1 hash (length r.0) h.maps) in
        let end : Option ExecutionResult × c.GasPool × PikaStateDb d → Applied c =
          λ a. settle c header tx message used_gas a.0 a.1 a.2 in
        let a = c.apply_message context message pool s' in
        ap
          (λ (q : List Log × PikaStateDb d).
            end (c.apply_message context message pool (set_tx_context q.1 hash (length q.0))))
          (get_logs-moved db' s hash (c.header_fields header).number (c.hash_header header))
        ∙ ap end (reader.alike context message pool s' db' i.maps (carried db' i agree))
        ∙ settle-moved used_gas a.0 a.1 a.2

module _ {d : Deps.Deps} (c : ChainDeps d) (laws : IsChainDeps c) (reader : IsStateReader c)
    (db db' : d.redis.Db)
    (same : (n : ℕ)
      → Blocks.get_header (block_deps c) db' n ≡ Blocks.get_header (block_deps c) db n) where
  apply_transaction-moved :
      (header : c.Header) (tx : c.Transaction) (used_gas : ℕ) (pool : c.GasPool) (s : PikaStateDb d)
      → IsMaps s
      → Agree d s.block_number s.db db'
      → apply_transaction c db' header tx used_gas pool (moved db' s)
        ≡ applied_moved db' (apply_transaction c db header tx used_gas pool s)
  unfolding apply_transaction
  apply_transaction-moved header tx used_gas pool s maps agree =
      elim (Option-cases (c.to_message header tx)) [
        | inl refused ↦ rw (refused, apply_transaction) refl
        | inr (message, made) ↦
            let author = some (c.header_fields header).coinbase in
            rw (made, apply_transaction)
              (ap
                  (λ (context : BlockContext).
                    apply_message_of c context header tx message used_gas pool (moved db' s))
                  (new_evm_block_context-same c db db' same header author)
                ∙ apply_message_of-moved c db' header tx message laws reader
                    (new_evm_block_context c db header author) used_gas pool s maps agree)
      ]

  process_transaction-moved :
      (block : c.Block) (i : ℕ) (tx : c.Transaction) (used_gas : ℕ) (pool : c.GasPool)
      (s : PikaStateDb d)
      → IsMaps s
      → Agree d s.block_number s.db db'
      → process_transaction c db' block i tx used_gas pool (moved db' s) ≡ (
          let r = process_transaction c db block i tx used_gas pool s in
          (r.0, applied_moved db' r.1))
  unfolding process_transaction
  process_transaction-moved block i tx used_gas pool s maps agree =
      let hash = c.hash_transaction tx in
      let h = set_tx_context-Carries s hash i maps in
      ap
        (λ (a : Applied c).
          (in_block c block i (receipt_or c a.receipt (failed_receipt c block i tx a.used_gas)), a))
        (apply_transaction-moved (c.block_header block) tx used_gas pool (set_tx_context s hash i)
          h.maps (carried db' h agree))

  process_from-moved :
      (block : c.Block) (i : ℕ) (txs : List c.Transaction) (used_gas : ℕ) (pool : c.GasPool)
      (s : PikaStateDb d)
      → IsMaps s
      → Agree d s.block_number s.db db'
      → process_from c db' block i txs used_gas pool (moved db' s)
        ≡ processed_moved db' (process_from c db block i txs used_gas pool s)
  unfolding process_from
  process_from-moved block i [] used_gas pool s maps agree = refl
  process_from-moved block i (tx ∷ txs) used_gas pool s maps agree =
      let (receipt, a) = process_transaction c db block i tx used_gas pool s in
      let h = process_transaction-Carries laws db block i tx used_gas pool s maps in
      let add : Receipt → Processed c → Processed c =
        λ r p. record p { receipts = r ∷ p.receipts } in
      ap
        (λ (r : Receipt × Applied c).
          add r.0 (process_from c db' block (i + 1) txs r.1.used_gas r.1.pool r.1.state))
        (process_transaction-moved block i tx used_gas pool s maps agree)
      ∙ ap (add receipt) (
          process_from-moved block (i + 1) txs a.used_gas a.pool a.state h.maps
            (carried db' h agree))

  -- The transactions of a block over a store that answers alike give the same receipts, gas and state.
  pub process_transactions-moved :
      (block : c.Block) (s : PikaStateDb d)
      → IsMaps s
      → Agree d s.block_number s.db db'
      → process_transactions c db' block (moved db' s)
        ≡ processed_moved db' (process_transactions c db block s)
  unfolding process_transactions
  process_transactions-moved block s maps agree =
      process_from-moved block 0 (c.block_transactions block) 0
        (c.gas_pool (c.block_gas_limit block)) s maps agree
