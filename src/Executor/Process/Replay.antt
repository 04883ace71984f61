-- ===== src/Executor/Process/Replay.antt =====
-- `ProcessBlock` of pkg/executor/processor.go once more for a block that it was called for before, as
-- after a crash or an error.
use mathlib.Core.Path.{subst}
use evm_executor.Prelude.{
  ℕ, ◌+◌, ◌-◌, ◌%◌, ◌<◌, ◌≤◌, ◌≡◌, refl, sym, ap, ◌∙◌, Option, none, some, List, [], ◌∷◌, arith,
  Option-cases, inl, inr,
}
use evm_executor.Deps
use evm_executor.Deps.{IsDeps}
use evm_executor.Storage.Redis.{ok, err, client_get}
use evm_executor.Storage.Batch.{key_of, Result-cases}
use evm_executor.Storage.Key.Faithful.{StateKey, account, storage, render}
use evm_executor.Storage.Ops.{Hash}
use evm_executor.Storage.State
use evm_executor.Storage.Blocks
use evm_executor.Storage.Blocks.{header_key, txs_key, receipt_key, get_block, store_receipts}
use evm_executor.Storage.Blocks.Kinds.{
  render-ne-header, render-ne-txs, render-ne-receipt, receipt-ne-header, receipt-ne-txs,
}
use evm_executor.State.Db.{PikaStateDb, word, new_pika_state_db}
use evm_executor.State.Commit.{commit, next_block}
use evm_executor.State.Commit.Written.{committed_text}
use evm_executor.State.Commit.Reads.{commit-keeps}
use evm_executor.State.Frame.Invariant.{new_pika_state_db-fresh}
use evm_executor.State.Frame.Opened.{opened_fields}
use evm_executor.State.Frame.Moved.{Agree, moved}
use evm_executor.Executor.Deps.{Receipt, ChainDeps, block_deps, IsChainDeps, IsStateReader}
use evm_executor.Executor.Process.{
  CacheConfig, Processed, processed, process_transactions, process_block,
}
use evm_executor.Executor.Process.Carried.{process_transactions-Carries}
use evm_executor.Executor.Process.Store.{opened_for, process_block-run, process_block-Went}
use evm_executor.Executor.Process.Apart.{process_block-apart, finish_block-apart}
use evm_executor.Executor.Process.Moved.{processed_moved, process_transactions-moved}

-- The receipts and the gas of the transactions of a block on the state before it, if the block is
-- stored and a state can be opened.
unfoldable pub outcome :
    {d : Deps.Deps} → ChainDeps d → CacheConfig → d.redis.Db → ℕ → Option (List Receipt × ℕ)
outcome c caches db n = elim (get_block (block_deps c) db n) [
  | err _ ↦ none
  | ok block ↦ elim (opened_for c caches db n) [
    | none ↦ none
    | some s ↦ let p = process_transactions c db block s in some (p.receipts, p.used_gas)
  ]
]

-- What a block that is processed without an error returns.
pub process_block-outcome :
    {d : Deps.Deps} (c : ChainDeps d) (caches : CacheConfig) (db : d.redis.Db) (n gas : ℕ)
    (rs : List Receipt)
    → (process_block c caches db n).1 ≡ processed rs gas
    → outcome c caches db n ≡ some (rs, gas)
unfolding outcome
process_block-outcome c caches db n gas rs done =
    let (block, s, found, opened, went) = process_block-Went c caches db n rs gas done in
    rw (found, outcome) (rw opened (λ i. some (sym went.receipts i, sym went.used_gas i)))

module _ {d : Deps.Deps} (db db' : d.redis.Db) (n state_size storage_size code_size : ℕ) where
  -- A state opens over the other store as it does over the one.
  opened-moved :
      (s : PikaStateDb d)
      → new_pika_state_db d db n state_size storage_size code_size ≡ some s
      → new_pika_state_db d db' n state_size storage_size code_size ≡ some (moved db' s)
  unfolding new_pika_state_db
  opened-moved s e =
      let (ca, cb, cc, ea, eb, ec, same) =
        new_pika_state_db-fresh db n state_size storage_size code_size e in
      rw (ea, new_pika_state_db)
        (rw (eb, new_pika_state_db)
          (rw (ec, new_pika_state_db) (ap (λ u. some (moved db' u)) same)))

  unopened-moved :
      new_pika_state_db d db n state_size storage_size code_size ≡ none
      → new_pika_state_db d db' n state_size storage_size code_size ≡ none
  unfolding new_pika_state_db
  unopened-moved e = ground (arith, e)

module _ {d : Deps.Deps} {c : ChainDeps d} (state_laws : IsDeps d) (laws : IsChainDeps c)
    (caches : CacheConfig) (db : d.redis.Db) (m : ℕ) (small : m < word) where
  -- The pieces of state that a commit for the block does not write are stored as before.
  process_block-keeps :
      (k : StateKey)
      → ((s : PikaStateDb d) → next_block s ≡ m → committed_text s k ≡ none)
      → d.redis.get (process_block c caches db m).0 (key_of d k) ≡ d.redis.get db (key_of d k)
  unfolding process_block
  process_block-keeps k unwritten = elim (Result-cases (get_block (block_deps c) db m)) [
    | inl (error, missing) ↦ ground arith
    | inr (block, found) ↦ elim (Option-cases (opened_for c caches db m)) [
      | inl refused ↦ ground arith
      | inr (s, opened) ↦
          let (same_db, same_block, maps) = opened_fields db _ _ _ _ opened in
          let p = process_transactions c db block s in
          let carried = process_transactions-Carries laws db block s maps in
          ap (λ r. d.redis.get r.0 (key_of d k))
            (process_block-run c caches db m block s found opened)
          ∙ finish_block-apart laws m (key_of d k)
              (λ e. render-ne-receipt d.hex_address d.hex_hash k m (sym e)) p (commit p.state)
          ∙ commit-keeps state_laws p.state carried.maps k
              (unwritten p.state (omega (arith, carried.block_number, same_block)))
          ∙ ap (λ db'. d.redis.get db' (key_of d k)) (carried.db ∙ same_db)
    ]
  ]

  process_block-header :
      (n : ℕ)
      → Blocks.get_header (block_deps c) (process_block c caches db m).0 n
        ≡ Blocks.get_header (block_deps c) db n
  unfolding Blocks.get_header client_get
  process_block-header n = ground (
    arith,
    process_block-apart state_laws laws m (header_key n)
        (λ k. render-ne-header d.hex_address d.hex_hash k n) (receipt-ne-header m n) caches db,
  )

  process_block-block :
      (n : ℕ)
      → get_block (block_deps c) (process_block c caches db m).0 n ≡ get_block (block_deps c) db n
  unfolding get_block client_get
  process_block-block n = ground (
    arith,
    process_block-header n,
    process_block-apart state_laws laws m (txs_key n)
        (λ k. render-ne-txs d.hex_address d.hex_hash k n) (receipt-ne-txs m n) caches db,
  )

  module _ (n : ℕ) (later : 1 < n) (upwards : n ≤ m)
      (codes : (h : Hash)
        → State.get_code d (process_block c caches db m).0 h ≡ State.get_code d db h) where
    abbrev parent : ℕ
    parent = (n + word - 1) % word

    -- The accounts and slots of the block before are stored as before.
    process_block-Agree : Agree d parent db (process_block c caches db m).0
    unfolding State.get_account State.get_storage client_get render committed_text
    process_block-Agree = record {
      accounts =
          λ a. ground (arith, process_block-keeps (account parent a) (λ s e. ground (arith, e)));
      slots = λ a x.
          ground (arith, process_block-keeps (storage parent a x) (λ s e. ground (arith, e)));
      codes = codes;
    }

    -- A call for a block leaves what the blocks up to it give, if they are executed again.
    outcome-process_block :
        IsStateReader c → outcome c caches (process_block c caches db m).0 n ≡ outcome c caches db n
    unfolding outcome
    outcome-process_block reader =
        let db' = (process_block c caches db m).0 in
        elim (Result-cases (get_block (block_deps c) db n)) [
          | inl (error, missing) ↦ ground (arith, process_block-block n)
          | inr (block, found) ↦
              let found' : get_block (block_deps c) db' n ≡ ok block =
                process_block-block n ∙ found in
              elim (Option-cases (opened_for c caches db n)) [
                | inl refused ↦
                    let refused' = unopened-moved db db' _ _ _ _ refused in
                    rw (found, outcome)
                      (rw (found', outcome) (rw (refused, outcome) (rw (refused', outcome) refl)))
                | inr (s, opened) ↦
                    let opened' = opened-moved db db' _ _ _ _ s opened in
                    let (same_db, same_block, maps) = opened_fields db _ _ _ _ opened in
                    let same : process_transactions c db' block (moved db' s)
                        ≡ processed_moved db' (process_transactions c db block s) =
                      process_transactions-moved c laws reader db db' process_block-header block s
                        maps
                        (subst (λ m. Agree d m s.db db') (sym same_block)
                          (subst (λ o. Agree d parent o db') (sym same_db)
                            (process_block-Agree))) in
                    rw (found, outcome)
                      (rw (found', outcome)
                        (rw (opened, outcome)
                          (rw (opened', outcome)
                            (ap (λ (p : Processed c). some (p.receipts, p.used_gas)) same))))
              ]
        ]

-- `ProcessBlock`, called for one block after the other, whatever it returns.
unfoldable pub attempted :
    {d : Deps.Deps} → ChainDeps d → CacheConfig → d.redis.Db → List ℕ → d.redis.Db
attempted c caches db [] = db
attempted c caches db (m ∷ ms) = attempted c caches (process_block c caches db m).0 ms

-- The blocks are at least `n`, their numbers are machine words, and no call stores a code that was not
-- stored before.
unfoldable pub AreReplays :
    {d : Deps.Deps} → ChainDeps d → CacheConfig → ℕ → d.redis.Db → List ℕ → Type 0
AreReplays c caches n db [] = Unit {0}
AreReplays {d} c caches n db (m ∷ ms) =
    (m < word)
    × (n ≤ m)
    × ((h : Hash) → State.get_code d (process_block c caches db m).0 h ≡ State.get_code d db h)
    × AreReplays c caches n (process_block c caches db m).0 ms

module _ {d : Deps.Deps} {c : ChainDeps d} (state_laws : IsDeps d) (laws : IsChainDeps c)
    (reader : IsStateReader c) (caches : CacheConfig) (n : ℕ) (later : 1 < n) where
  outcome-attempted :
      (db : d.redis.Db) (ms : List ℕ)
      → AreReplays c caches n db ms
      → outcome c caches (attempted c caches db ms) n ≡ outcome c caches db n
  unfolding attempted AreReplays
  outcome-attempted db [] replays = refl
  outcome-attempted db (m ∷ ms) (small, upwards, codes, replays) =
      outcome-attempted (process_block c caches db m).0 ms replays
      ∙ outcome-process_block state_laws laws caches db m small n later upwards codes reader

  -- For a block above 1: after any sequence of calls of ProcessBlock for it and for blocks above it,
  -- whose numbers are machine words, each of which ended in any way, with an error or without one, but
  -- stored no code that was not stored before, a call for the block that returns no error returns the
  -- receipts and the gas that its transactions give on the store before all those calls, provided that
  -- the EVM reads the store by the state database only.
  pub process_block_again :
      (db : d.redis.Db) (ms : List ℕ) (rs : List Receipt) (gas : ℕ)
      → AreReplays c caches n db ms
      → (process_block c caches (attempted c caches db ms) n).1 ≡ processed rs gas
      → outcome c caches db n ≡ some (rs, gas)
  process_block_again db ms rs gas replays done =
      sym (outcome-attempted db ms replays)
      ∙ process_block-outcome c caches (attempted c caches db ms) n gas rs done
