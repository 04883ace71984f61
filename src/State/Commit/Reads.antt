-- ===== src/State/Commit/Reads.antt =====
-- What the state database of the next block reads after `Commit` of pkg/state/statedb.go.
use evm_executor.Prelude.{
  ℕ, ◌≡◌, sym, ap, ◌∙◌, true, none, some, List, [], ◌∷◌, ◌++◌, Map, lookup, ◌==◌, arith, inl, inr,
  Bool-cases, Option-cases,
}
use evm_executor.Deps.{Deps, IsDeps}
use evm_executor.Storage.Redis.{Text, Command, ok, err, client_error, client_get}
use evm_executor.Storage.Key.Faithful.{StateKey, account, storage, render}
use evm_executor.Storage.Ops.{Address, Hash, WriteOp, write_account}
use evm_executor.Storage.State
use evm_executor.Storage.State.{queue_op, queue_ops, batch_write}
use evm_executor.Storage.Batch.{
  later, key_of, batch_write-get, batch_write-keeps, queue_ops-cons, Result-cases,
}
use evm_executor.State.Account.{Account, new_account, to_stored}
use evm_executor.State.Db.{PikaStateDb, new_pika_state_db}
use evm_executor.State.Read.{get_account, get_state, written_slot}
use evm_executor.State.Read.Spec.{or_new, or_zero, account_view, slot_view}
use evm_executor.State.Frame.Opened.{get_account-opened, get_state-opened}
use evm_executor.State.Commit.{account_ops, next_block, commit_ops, commit}
use evm_executor.State.Commit.Written.{reaches, IsMaps, committed_text, commit_ops-written}

-- A commit without an error encoded every account.
marshalled :
    (d : Deps) (n : ℕ) (accounts : Map Account) (rest : List WriteOp) (cs : List Command)
    (a : Address) (acc : Account)
    → queue_ops d (account_ops n accounts ++ rest) ≡ ok cs
    → lookup a accounts ≡ some acc
    → (t : Text) × (d.marshal (to_stored acc) ≡ some t)
unfolding account_ops lookup queue_op
marshalled d n [] rest cs a acc e found = ground arith
marshalled d n ((b, first) ∷ accounts) rest cs a acc e found =
    let (_, others, first_queued, others_queued, _) =
      queue_ops-cons d (write_account n b (to_stored first)) (account_ops n accounts ++ rest) cs
        e in
    elim (Bool-cases (b == a)) [
      | inr elsewhere ↦ marshalled d n accounts rest others a acc others_queued (ground arith)
      | inl here ↦ elim (Option-cases (d.marshal (to_stored first))) [
        | inl failed ↦ ground arith
        | inr (t, text) ↦
            let same : first ≡ acc = ground arith in
            (t, ap (λ (x : Account). d.marshal (to_stored x)) (sym same) ∙ text)
      ]
    ]

module _ {d : Deps} where
  -- A piece of state that the maps do not hold is stored as before, whether the commit reports an error
  -- or not.
  pub commit-keeps :
      IsDeps d
      → (s : PikaStateDb d) → IsMaps s
      → (k : StateKey) → committed_text s k ≡ none
      → d.redis.get (commit s).0.db (key_of d k) ≡ d.redis.get s.db (key_of d k)
  unfolding commit
  commit-keeps laws s maps k e =
      batch_write-keeps laws s.db (commit_ops s) k (commit_ops-written s k maps ∙ e)

  module _ (laws : IsDeps d) (s : PikaStateDb d) (maps : IsMaps s)
      (done : (commit s).1 ≡ ok tt) where
    committed-get :
        (k : StateKey)
        → d.redis.get (commit s).0.db (key_of d k)
          ≡ later (committed_text s k) (d.redis.get s.db (key_of d k))
    unfolding commit
    committed-get k =
        batch_write-get laws s.db (commit_ops s) k done
        ∙ ap (λ o. later o (d.redis.get s.db (key_of d k))) (commit_ops-written s k maps)

    encoded :
        (a : Address) (acc : Account)
        → lookup a s.accounts ≡ some acc
        → (t : Text) × (d.marshal (to_stored acc) ≡ some t)
    unfolding commit batch_write commit_ops
    encoded a acc e = elim (Result-cases (queue_ops d (commit_ops s))) [
      | inl (error, failed) ↦ ground arith
      | inr (cs, queued) ↦ marshalled d (next_block s) s.accounts _ cs a acc queued e
    ]

    -- The account is stored for the next block and as the latest one.
    pub stored_account :
        (m : ℕ) (a : Address) (acc : Account)
        → reaches (next_block s) m ≡ true
        → lookup a s.accounts ≡ some acc
        → State.get_account d (commit s).0.db m a ≡ ok (to_stored acc)
    unfolding State.get_account client_get render committed_text
    stored_account m a acc r e =
        let (t, text) = encoded a acc e in
        ground
          (arith, committed-get (account m a), text, laws.json_round_trip (to_stored acc) t text)

    pub stored_slot :
        (m : ℕ) (a : Address) (x v : Hash)
        → reaches (next_block s) m ≡ true
        → written_slot s.storages a x ≡ some v
        → State.get_storage d (commit s).0.db m a x ≡ ok v
    unfolding State.get_storage client_get render committed_text
    stored_slot m a x v r e = ground (arith, committed-get (storage m a x), laws.hash_round_trip v)

    -- What the store holds of an account after the commit, for the next block or as the latest one.
    pub committed_account :
        (m : ℕ) (a : Address)
        → reaches (next_block s) m ≡ true
        → or_new (State.get_account d (commit s).0.db m a) ≡ account_view d s.db m s.accounts a
    unfolding State.get_account client_get render committed_text
    committed_account m a r = elim (Option-cases (lookup a s.accounts)) [
      | inl untouched ↦
          let same : State.get_account d (commit s).0.db m a ≡ State.get_account d s.db m a =
            ground (arith, commit-keeps laws s maps (account m a) (ground arith)) in
          rw untouched (ap or_new same)
      | inr (acc, found) ↦ rw found (ap or_new (stored_account m a acc r found))
    ]

    -- What it holds of a slot.
    pub committed_slot :
        (m : ℕ) (a : Address) (x : Hash)
        → reaches (next_block s) m ≡ true
        → or_zero (State.get_storage d (commit s).0.db m a x) ≡ slot_view d s.db m s.storages a x
    unfolding State.get_storage client_get render committed_text
    committed_slot m a x r = elim (Option-cases (written_slot s.storages a x)) [
      | inl unwritten ↦
          let same : State.get_storage d (commit s).0.db m a x ≡ State.get_storage d s.db m a x =
            ground (arith, commit-keeps laws s maps (storage m a x) (ground arith)) in
          rw unwritten (ap or_zero same)
      | inr (v, written) ↦ rw written (ap or_zero (stored_slot m a x v r written))
    ]

    module _ (state_size storage_size code_size : ℕ) (t : PikaStateDb d)
        (opened : new_pika_state_db d
            (commit s).0.db
            (next_block s)
            state_size
            storage_size
            code_size
          ≡ some t) where
      -- After a commit without an error of a state whose maps hold no key twice, the state database
      -- that is opened for the next block reads every account as the committed state holds it, and
      -- one that it does not hold as the store had it for that block before; it reads every slot as
      -- it was written, and one that was not as the store had it for that block before.
      pub next_block_reads :
          (a : Address) (x : Hash)
          → ((get_account t a).0 ≡ account_view d s.db (next_block s) s.accounts a)
            × ((get_state t a x).0 ≡ slot_view d s.db (next_block s) s.storages a x)
      next_block_reads a x = (
        get_account-opened (commit s).0.db (next_block s) state_size storage_size code_size opened
              laws a
            ∙ committed_account (next_block s) a (ground arith),
        get_state-opened (commit s).0.db (next_block s) state_size storage_size code_size opened
              laws a x
            ∙ committed_slot (next_block s) a x (ground arith),
      )

      -- The defect: an account that the committed state has not loaded, and that the store does not
      -- hold for the next block yet, reads there as a new one after a commit without an error,
      -- whatever the latest state holds of it, which is as it was before the commit.
      pub untouched_account_lost :
          (a : Address)
          → lookup a s.accounts ≡ none
          → State.get_account d s.db (next_block s) a ≡ err client_error
          → ((get_account t a).0 ≡ new_account)
            × (State.get_account d (commit s).0.db 0 a ≡ State.get_account d s.db 0 a)
      unfolding State.get_account client_get render committed_text
      untouched_account_lost a e missing =
          let at = λ (m : ℕ). commit-keeps laws s maps (account m a) (ground arith) in
          let unread : State.get_account d (commit s).0.db (next_block s) a ≡ err client_error =
            ground (arith, at (next_block s), missing) in
          (
            get_account-opened (commit s).0.db (next_block s) state_size storage_size code_size
                  opened laws a
                ∙ ap or_new unread,
            ground (arith, at 0),
          )
