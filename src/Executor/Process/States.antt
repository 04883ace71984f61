-- ===== src/Executor/Process/States.antt =====
-- What the next block reads after `ProcessBlock` of pkg/executor/processor.go.
use mathlib.Core.Path.{subst}
use mathlib.Core.Option.{some-injective}
use evm_executor.Prelude.{ℕ, ◌<◌, ◌≡◌, sym, ap, ◌∙◌, true, none, some, Option, List, arith}
use evm_executor.Deps
use evm_executor.Deps.{IsDeps}
use evm_executor.Storage.Redis.{ok, err, client_get}
use evm_executor.Storage.Key.Faithful.{StateKey, account, storage, render}
use evm_executor.Storage.Ops.{Address, Hash}
use evm_executor.Storage.State
use evm_executor.Storage.Batch.{key_of}
use evm_executor.Storage.Blocks.{get_block, store_receipts}
use evm_executor.Storage.Blocks.Kinds.{render-ne-receipt}
use evm_executor.Storage.Blocks.Stored.{store_receipts-apart}
use evm_executor.State.Db.{PikaStateDb, word, new_pika_state_db}
use evm_executor.State.Read.{get_account, get_state}
use evm_executor.State.Read.Spec.{or_new, or_zero, account_view, slot_view}
use evm_executor.State.Commit.{commit, next_block}
use evm_executor.State.Commit.Written.{reaches, IsMaps}
use evm_executor.State.Commit.Reads.{committed_account, committed_slot}
use evm_executor.State.Frame.Opened.{opened_fields, get_account-opened, get_state-opened}
use evm_executor.Executor.Deps.{Receipt, ChainDeps, block_deps, IsChainDeps}
use evm_executor.Executor.Process.{CacheConfig, processed, process_transactions, process_block}
use evm_executor.Executor.Process.Carried.{process_transactions-Carries}
use evm_executor.Executor.Process.Store.{opened_for, process_block-Went}

-- The state after the transactions of a block, if the block is stored and a state can be opened.
unfoldable pub executed :
    {d : Deps.Deps} → ChainDeps d → CacheConfig → d.redis.Db → ℕ → Option (PikaStateDb d)
executed c caches db n = elim (get_block (block_deps c) db n) [
  | err _ ↦ none
  | ok block ↦ elim (opened_for c caches db n) [
    | none ↦ none
    | some s ↦ some (process_transactions c db block s).state
  ]
]

module _ {d : Deps.Deps} {c : ChainDeps d} (state_laws : IsDeps d) (laws : IsChainDeps c)
    (caches : CacheConfig) (db : d.redis.Db) (n gas : ℕ) (rs : List Receipt) (small : n < word)
    (done : (process_block c caches db n).1 ≡ processed rs gas) (f : PikaStateDb d)
    (ran : executed c caches db n ≡ some f) where
  -- The committed state, and the store with the receipts over it.
  abbrev Ended : PikaStateDb d → Type 0
  Ended u =
      IsMaps u
      × (u.db ≡ db)
      × (next_block u ≡ n)
      × ((commit u).1 ≡ ok tt)
      × ((process_block c caches db n).0 ≡ (store_receipts (block_deps c) (commit u).0.db n rs).0)

  ended : Ended f
  unfolding executed
  ended =
      let (block, s, found, opened, went) = process_block-Went c caches db n rs gas done in
      let (same_db, same_block, maps) = opened_fields db _ _ _ _ opened in
      let p = process_transactions c db block s in
      let carried = process_transactions-Carries laws db block s maps in
      let ran' : executed c caches db n ≡ some p.state = rw (found, executed) (rw opened) in
      subst Ended (some-injective _ _ (sym ran' ∙ ran)) (
        carried.maps,
        carried.db ∙ same_db,
        omega (arith, carried.block_number, same_block),
        went.committed,
        went.store,
      )

  -- What is stored under the key of a piece of the state is what the commit left there.
  after_receipts :
      (k : StateKey)
      → d.redis.get (process_block c caches db n).0 (key_of d k)
        ≡ d.redis.get (commit f).0.db (key_of d k)
  after_receipts k =
      let (_, _, _, _, store) = ended in
      ap (λ db'. d.redis.get db' (key_of d k)) store
      ∙ store_receipts-apart laws.blocks (commit f).0.db n rs (key_of d k)
          (λ e. render-ne-receipt d.hex_address d.hex_hash k n (sym e))

  module _ (m state_size storage_size code_size : ℕ) (reached : reaches n m ≡ true)
      (t : PikaStateDb d)
      (opened : new_pika_state_db d
          (process_block c caches db n).0
          m
          state_size
          storage_size
          code_size
        ≡ some t) where
    account_after : (a : Address) → (get_account t a).0 ≡ account_view d db m f.accounts a
    unfolding State.get_account client_get render
    account_after a =
        let (maps, same_db, next, committed, _) = ended in
        let same : State.get_account d (process_block c caches db n).0 m a
            ≡ State.get_account d (commit f).0.db m a =
          cc (after_receipts (account m a)) in
        get_account-opened (process_block c caches db n).0 m state_size storage_size code_size
          opened state_laws a
        ∙ ap or_new same
        ∙ committed_account state_laws f maps committed m a (ground arith)
        ∙ ap (λ db'. account_view d db' m f.accounts a) same_db

    slot_after : (a : Address) (x : Hash) → (get_state t a x).0 ≡ slot_view d db m f.storages a x
    unfolding State.get_storage client_get render
    slot_after a x =
        let (maps, same_db, next, committed, _) = ended in
        let same : State.get_storage d (process_block c caches db n).0 m a x
            ≡ State.get_storage d (commit f).0.db m a x =
          cc (after_receipts (storage m a x)) in
        get_state-opened (process_block c caches db n).0 m state_size storage_size code_size opened
          state_laws a x
        ∙ ap or_zero same
        ∙ committed_slot state_laws f maps committed m a x (ground arith)
        ∙ ap (λ db'. slot_view d db' m f.storages a x) same_db

  -- After a block whose number is a machine word was processed without an error, a state database
  -- opened at its number over the store, as the next block opens it, reads every account as the state
  -- held it after the transactions, and one that it did not hold as the store had it for that number
  -- before; it reads every slot that the transactions wrote as they left it, and the others as the
  -- store had them for that number before.
  pub process_block_reads :
      (state_size storage_size code_size : ℕ) (t : PikaStateDb d)
      → new_pika_state_db d (process_block c caches db n).0 n state_size storage_size code_size
        ≡ some t
      → (a : Address) (x : Hash)
      → ((get_account t a).0 ≡ account_view d db n f.accounts a)
        × ((get_state t a x).0 ≡ slot_view d db n f.storages a x)
  process_block_reads state_size storage_size code_size t opened a x =
      let reached : reaches n n ≡ true = ground arith in
      (
        account_after n state_size storage_size code_size reached t opened a,
        slot_after n state_size storage_size code_size reached t opened a x,
      )

  -- The defect: after any block, whose number is a machine word, was processed without an error, the
  -- state that ProcessBlock opens for block 1 over the store is not that of block 0: it reads every
  -- account and every slot as the state after that block held it, if it did.
  pub first_block_reads_latest :
      (t : PikaStateDb d)
      → opened_for c caches (process_block c caches db n).0 1 ≡ some t
      → (a : Address) (x : Hash)
      → ((get_account t a).0 ≡ account_view d db 0 f.accounts a)
        × ((get_state t a x).0 ≡ slot_view d db 0 f.storages a x)
  first_block_reads_latest t opened a x =
      let reached : reaches n 0 ≡ true = ground arith in
      (account_after 0 _ _ _ reached t opened a, slot_after 0 _ _ _ reached t opened a x)
