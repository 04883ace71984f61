-- ===== src/Executor/Process/Carried.antt =====
-- What the transactions of a block leave alone (pkg/executor/processor.go and pkg/executor/apply.go).
use evm_executor.Prelude.{
  ℕ, ◌+◌, refl, Option, length, none, some, List, [], ◌∷◌, lookup, arith, Option-cases, inl, inr,
}
use evm_executor.Deps
use evm_executor.Deps.{IsDeps}
use evm_executor.Storage.Ops.{Hash}
use evm_executor.State.Db.{PikaStateDb}
use evm_executor.State.Read.{get_logs}
use evm_executor.State.Write.{set_tx_context}
use evm_executor.State.Commit.Written.{IsMaps}
use evm_executor.State.Frame.Carries.{Carries, Carries-trans}
use evm_executor.Executor.Deps.{ExecutionResult, BlockContext, ChainDeps, IsChainDeps}
use evm_executor.Executor.Apply.{settle, apply_message_of, apply_transaction}
use evm_executor.Executor.Process.{process_transaction, process_from, process_transactions}

module _ {d : Deps.Deps} where
  pub get_logs-Carries :
      (s : PikaStateDb d) (h : Hash) (bn : ℕ) (bh : Hash)
      → IsMaps s
      → Carries s (get_logs s h bn bh).1
  unfolding get_logs
  get_logs-Carries s h bn bh maps = elim (Option-cases (lookup h s.logs)) [
    | inl missing ↦ ground arith
    | inr (logs, found) ↦ ground arith
  ]

  pub set_tx_context-Carries :
      (s : PikaStateDb d) (h : Hash) (i : ℕ) → IsMaps s → Carries s (set_tx_context s h i)
  set_tx_context-Carries s h i maps = ground arith

module _ {d : Deps.Deps} {c : ChainDeps d} (laws : IsChainDeps c) where
  pub settle-Carries :
      (header : c.Header) (tx : c.Transaction) (message : c.Message) (used_gas : ℕ)
      (answer : Option ExecutionResult) (pool : c.GasPool) (s : PikaStateDb d)
      → IsMaps s
      → Carries s (settle c header tx message used_gas answer pool s).state
  unfolding settle
  settle-Carries header tx message used_gas none pool s maps = record {
    db = refl;
    block_number = refl;
    maps = maps;
  }
  settle-Carries header tx message used_gas (some result) pool s maps =
      get_logs-Carries s _ _ _ maps

  pub apply_message_of-Carries :
      (context : BlockContext) (header : c.Header) (tx : c.Transaction) (message : c.Message)
      (used_gas : ℕ) (pool : c.GasPool) (s : PikaStateDb d)
      → IsMaps s
      → Carries s (apply_message_of c context header tx message used_gas pool s).state
  unfolding apply_message_of
  apply_message_of-Carries context header tx message used_gas pool s maps =
      let hash = c.hash_transaction tx in
      let r = get_logs s hash (c.header_fields header).number (c.hash_header header) in
      let logs =
        get_logs-Carries s hash (c.header_fields header).number (c.hash_header header) maps in
      let s' = set_tx_context r.1 hash (length r.0) in
      let context_set =
        Carries-trans logs (set_tx_context-Carries r.1 hash (length r.0) logs.maps) in
      let ran = Carries-trans context_set (laws.carries context message pool s' context_set.maps) in
      let a = c.apply_message context message pool s' in
      Carries-trans ran (settle-Carries header tx message used_gas a.0 a.1 a.2 ran.maps)

  pub process_transaction-Carries :
      (db : d.redis.Db) (block : c.Block) (i : ℕ) (tx : c.Transaction) (used_gas : ℕ)
      (pool : c.GasPool) (s : PikaStateDb d)
      → IsMaps s
      → Carries s (process_transaction c db block i tx used_gas pool s).1.state
  unfolding process_transaction apply_transaction
  process_transaction-Carries db block i tx used_gas pool s maps =
      let hash = c.hash_transaction tx in
      let set_up = set_tx_context-Carries s hash i maps in
      elim (Option-cases (c.to_message (c.block_header block) tx)) [
        | inl refused ↦ rw (refused, apply_transaction) set_up
        | inr (message, made) ↦
            rw (made, apply_transaction)
              (Carries-trans set_up (
                apply_message_of-Carries _ (c.block_header block) tx message used_gas pool
                  (set_tx_context s hash i) set_up.maps))
      ]

  process_from-Carries :
      (db : d.redis.Db) (block : c.Block) (i : ℕ) (txs : List c.Transaction) (used_gas : ℕ)
      (pool : c.GasPool) (s : PikaStateDb d)
      → IsMaps s
      → Carries s (process_from c db block i txs used_gas pool s).state
  unfolding process_from
  process_from-Carries db block i [] used_gas pool s maps = record {
    db = refl;
    block_number = refl;
    maps = maps;
  }
  process_from-Carries db block i (tx ∷ txs) used_gas pool s maps =
      let first = process_transaction-Carries db block i tx used_gas pool s maps in
      let a = (process_transaction c db block i tx used_gas pool s).1 in
      Carries-trans first
        (process_from-Carries db block (i + 1) txs a.used_gas a.pool a.state first.maps)

  pub process_transactions-Carries :
      (db : d.redis.Db) (block : c.Block) (s : PikaStateDb d)
      → IsMaps s
      → Carries s (process_transactions c db block s).state
  unfolding process_transactions
  process_transactions-Carries db block s maps =
      process_from-Carries db block 0 (c.block_transactions block) 0
        (c.gas_pool (c.block_gas_limit block)) s maps
