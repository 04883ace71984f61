-- ===== src/Executor/Process/Apart.antt =====
-- The keys that `ProcessBlock` of pkg/executor/processor.go leaves alone.
use evm_executor.Prelude.{ℕ, ◌≡◌, ◌≢◌, refl, ap, ◌∙◌, arith, Option-cases, inl, inr}
use evm_executor.Deps
use evm_executor.Deps.{IsDeps}
use evm_executor.Storage.Redis.{Text, Result, ok, err}
use evm_executor.Storage.Key.Faithful.{StateKey}
use evm_executor.Storage.Batch.{key_of, Result-cases}
use evm_executor.Storage.Batch.Apart.{batch_write-apart}
use evm_executor.Storage.Blocks.{receipt_key, get_block, store_receipts}
use evm_executor.Storage.Blocks.Stored.{store_receipts-apart}
use evm_executor.State.Db.{PikaStateDb}
use evm_executor.State.Commit.{commit, commit_ops}
use evm_executor.State.Frame.Opened.{opened_fields}
use evm_executor.Executor.Deps.{ChainDeps, block_deps, IsChainDeps}
use evm_executor.Executor.Process.{
  CacheConfig, Processed, finish_block, process_transactions, process_block,
}
use evm_executor.Executor.Process.Carried.{process_transactions-Carries}
use evm_executor.Executor.Process.Store.{opened_for, process_block-run}

-- `Commit` has ended when the receipts are stored: no key changes after it but that of the receipts.
pub finish_block-apart :
    {d : Deps.Deps} {c : ChainDeps d}
    → IsChainDeps c
    → (n : ℕ) (t : Text) → receipt_key n ≢ t
    → (p : Processed c) (r : PikaStateDb d × Result (Unit {0}))
    → d.redis.get (finish_block c n p r).0 t ≡ d.redis.get r.0.db t
finish_block-apart laws n t other p (s, err e) = refl
finish_block-apart {d} {c} laws n t other p (s, ok _) =
    elim (Result-cases (store_receipts (block_deps c) s.db n p.receipts).1) [
      | inl (e, refused) ↦
          ground (arith, store_receipts-apart laws.blocks s.db n p.receipts t other)
      | inr (_, stored) ↦ ground (arith, store_receipts-apart laws.blocks s.db n p.receipts t other)
    ]

module _ {d : Deps.Deps} {c : ChainDeps d} (state_laws : IsDeps d) (laws : IsChainDeps c) (n : ℕ)
    (t : Text) (apart : (k : StateKey) → key_of d k ≢ t) (other : receipt_key n ≢ t) where
  commit-apart : (s : PikaStateDb d) → d.redis.get (commit s).0.db t ≡ d.redis.get s.db t
  unfolding commit
  commit-apart s = batch_write-apart state_laws t apart s.db (commit_ops s)

  -- Whether the block is processed or an error is returned, no key changes but the state's keys and
  -- that of the block's receipts.
  pub process_block-apart :
      (caches : CacheConfig) (db : d.redis.Db)
      → d.redis.get (process_block c caches db n).0 t ≡ d.redis.get db t
  unfolding process_block
  process_block-apart caches db = elim (Result-cases (get_block (block_deps c) db n)) [
    | inl (error, missing) ↦ ground arith
    | inr (block, found) ↦ elim (Option-cases (opened_for c caches db n)) [
      | inl refused ↦ ground arith
      | inr (s, opened) ↦
          let (same_db, _, maps) = opened_fields db _ _ _ _ opened in
          let p = process_transactions c db block s in
          let carried = process_transactions-Carries laws db block s maps in
          ap (λ r. d.redis.get r.0 t) (process_block-run c caches db n block s found opened)
          ∙ finish_block-apart laws n t other p (commit p.state)
          ∙ commit-apart p.state
          ∙ ap (λ db'. d.redis.get db' t) (carried.db ∙ same_db)
    ]
  ]
