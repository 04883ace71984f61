-- ===== src/Executor/Process/Store.antt =====
-- What `ProcessBlock` of pkg/executor/processor.go leaves in the store.
use evm_executor.Prelude.{
  ℕ, ◌+◌, ◌-◌, ◌%◌, ◌≡◌, sym, ap, ◌∙◌, some, List, arith, Option, Option-cases, inl, inr,
}
use evm_executor.Deps
use evm_executor.Deps.{IsDeps}
use evm_executor.Storage.Redis.{Text, Result, ok, err}
use evm_executor.Storage.Batch.{Result-cases}
use evm_executor.Storage.Blocks.{receipt_key, get_block, store_receipts}
use evm_executor.Storage.Blocks.Stored.{store_receipts-text}
use evm_executor.State.Db.{PikaStateDb, word, new_pika_state_db}
use evm_executor.State.Commit.{commit}
use evm_executor.Executor.Deps.{Receipt, ChainDeps, block_deps, IsChainDeps}
use evm_executor.Executor.Process.{
  CacheConfig, Processed, finish_block, processed, process_transactions, process_block,
}

module _ {d : Deps.Deps} (c : ChainDeps d) (caches : CacheConfig) (db : d.redis.Db) (n : ℕ) where
  finish_block-processed :
      (p : Processed c) (r : PikaStateDb d × Result (Unit {0})) (rs : List Receipt) (gas : ℕ)
      → (finish_block c n p r).1 ≡ processed rs gas
      → (r.1 ≡ ok tt)
        × (rs ≡ p.receipts)
        × (gas ≡ p.used_gas)
        × ((store_receipts (block_deps c) r.0.db n rs).1 ≡ ok tt)
        × ((finish_block c n p r).0 ≡ (store_receipts (block_deps c) r.0.db n rs).0)
  finish_block-processed p (s, err e) rs gas h = ground arith
  finish_block-processed p (s, ok _) rs gas h =
      elim (Result-cases (store_receipts (block_deps c) s.db n p.receipts).1) [
        | inl (e, refused) ↦ ground arith
        | inr (_, stored) ↦ ground arith
      ]

  -- The state database that the block is executed on.
  abbrev pub opened_for : Option (PikaStateDb d)
  opened_for =
      new_pika_state_db d db ((n + word - 1) % word) caches.state_cache_size
        caches.storage_cache_size caches.code_cache_size

  -- What a block that was processed went through.
  pub record Went (rs : List Receipt) (gas : ℕ) (block : c.Block) (s : PikaStateDb d) : Type 0 where
    pub committed : (commit (process_transactions c db block s).state).1 ≡ ok tt
    pub receipts : rs ≡ (process_transactions c db block s).receipts
    pub used_gas : gas ≡ (process_transactions c db block s).used_gas
    pub stored :
        (store_receipts
          (block_deps c)
          (commit (process_transactions c db block s).state).0.db
          n
          rs).1
        ≡ ok tt
    pub store :
        (process_block c caches db n).0
        ≡ (store_receipts
            (block_deps c)
            (commit (process_transactions c db block s).state).0.db
            n
            rs).0

  pub process_block-run :
      (block : c.Block) (s : PikaStateDb d)
      → get_block (block_deps c) db n ≡ ok block
      → opened_for ≡ some s
      → process_block c caches db n
        ≡ finish_block c n
            (process_transactions c db block s)
            (commit (process_transactions c db block s).state)
  unfolding process_block
  process_block-run block s found opened = rw (found, process_block) (rw opened)

  pub process_block-Went :
      (rs : List Receipt) (gas : ℕ)
      → (process_block c caches db n).1 ≡ processed rs gas
      → (block : c.Block) × (s : PikaStateDb d) × (get_block (block_deps c) db n ≡ ok block)
        × (opened_for ≡ some s)
        × Went rs gas block s
  unfolding process_block
  process_block-Went rs gas e = elim (Result-cases (get_block (block_deps c) db n)) [
    | inl (error, missing) ↦ ground arith
    | inr (block, found) ↦ elim (Option-cases opened_for) [
      | inl refused ↦ ground arith
      | inr (s, opened) ↦
          let run = process_block-run block s found opened in
          let (committed, receipts, used_gas, stored, store) =
            finish_block-processed (process_transactions c db block s)
              (commit (process_transactions c db block s).state) rs gas
              (ap (λ r. r.1) (sym run) ∙ e) in
          (
            block,
            s,
            found,
            opened,
            record {
              committed = committed;
              receipts = receipts;
              used_gas = used_gas;
              stored = stored;
              store = ap (λ r. r.0) run ∙ store;
            },
          )
    ]
  ]

-- After a block that was processed without an error, its encoded receipts are stored under its number.
pub receipts_text :
    {d : Deps.Deps} {c : ChainDeps d}
    → IsChainDeps c
    → (caches : CacheConfig) (db : d.redis.Db) (n gas : ℕ) (rs : List Receipt)
    → (process_block c caches db n).1 ≡ processed rs gas
    → (t : Text) × (c.encode_receipts rs ≡ some t)
      × (d.redis.get (process_block c caches db n).0 (receipt_key n) ≡ some t)
receipts_text {d} {c} laws caches db n gas rs e =
    let (block, s, found, opened, went) = process_block-Went c caches db n rs gas e in
    let state = (process_transactions c db block s).state in
    let (t, encoded, here) = store_receipts-text laws.blocks (commit state).0.db n rs went.stored in
    (t, encoded, ap (λ db'. d.redis.get db' (receipt_key n)) went.store ∙ here)
