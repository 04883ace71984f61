-- ===== src/State/Frame/Programs.antt =====
-- What a program of nested frames over pkg/state/statedb.go leaves alone: the store, the block, and
-- that a map holds no key twice.
use mathlib.Core.Path.{subst}
use evm_executor.Prelude.{
  ℕ, ◌≡◌, refl, Bool, true, false, Option, none, some, List, [], ◌∷◌, lookup, insert-Distinct,
  delete-Distinct, drop, length, ltb, arith, Option-cases, Bool-cases, inl, inr,
}
use evm_executor.Deps.{Deps}
use evm_executor.State.Db.{PikaStateDb}
use evm_executor.State.Journal.{
  Entry, create_object_change, reset_object_change, suicide_change, balance_change, nonce_change,
  storage_change, code_change, refund_change, add_log_change, add_preimage_change, touch_change,
  access_list_add_account_change, access_list_add_slot_change,
}
use evm_executor.State.AccessList.{delete_slot}
use evm_executor.State.Write.{logs_of}
use evm_executor.State.Undo.{drop_log, undo_entry, undo_entries, revert}
use evm_executor.State.Snapshot.{find_revision, snapshot, revert_to_snapshot}
use evm_executor.State.Commit.Written.{IsMaps}
use evm_executor.State.Frame.{Program, stop, act, call, step, leave, run, ◌>>=◌}
use evm_executor.State.Frame.Carries.{
  Carries, Carries-trans, Carries-refl, carries, step-Carries, write_slot-Distinct,
  update_account-Distinct,
}

module _ {d : Deps} where
  -- The same of a call that may panic.
  abbrev Kept : PikaStateDb d → Option (PikaStateDb d) → Type 0
  Kept s none = Unit {0}
  Kept s (some t) = Carries s t

  Kept-trans :
      (s t : PikaStateDb d) (o : Option (PikaStateDb d)) → Carries s t → Kept t o → Kept s o
  Kept-trans s t none h k = tt
  Kept-trans s t (some u) h k = Carries-trans h k

  >>=-Kept :
      (s : PikaStateDb d) (o : Option (PikaStateDb d)) (f : PikaStateDb d → Option (PikaStateDb d))
      → Kept s o
      → ((t : PikaStateDb d) → Carries s t → Kept s (f t))
      → Kept s (o >>= f)
  >>=-Kept s none f h k = tt
  >>=-Kept s (some t) f h k = k t h

  pub >>=-some :
      (o : Option (PikaStateDb d)) (f : PikaStateDb d → Option (PikaStateDb d)) (u : PikaStateDb d)
      → (o >>= f) ≡ some u
      → (t : PikaStateDb d) × (o ≡ some t) × (f t ≡ some u)
  >>=-some none f u e = ground arith
  >>=-some (some t) f u e = (t, refl, e)

  undo_entry-Kept : (e : Entry) (s : PikaStateDb d) → IsMaps s → Kept s (undo_entry e s)
  unfolding undo_entry
  undo_entry-Kept (create_object_change account) s maps =
      carries refl refl (delete-Distinct account s.accounts maps.accounts) maps.storages maps.slots
        maps.codes
  undo_entry-Kept (reset_object_change prev addr) s maps =
      carries refl refl (insert-Distinct addr prev s.accounts maps.accounts) maps.storages
        maps.slots maps.codes
  undo_entry-Kept (suicide_change account prev none) s maps = ground (arith, Carries-refl s maps)
  undo_entry-Kept (suicide_change account prev (some balance)) s maps =
      carries refl refl (update_account-Distinct s.accounts account _ maps.accounts) maps.storages
        maps.slots maps.codes
  undo_entry-Kept (balance_change account prev) s maps =
      carries refl refl (update_account-Distinct s.accounts account _ maps.accounts) maps.storages
        maps.slots maps.codes
  undo_entry-Kept (nonce_change account prev) s maps =
      carries refl refl (update_account-Distinct s.accounts account _ maps.accounts) maps.storages
        maps.slots maps.codes
  undo_entry-Kept (storage_change account key prevalue) s maps =
      let (h, i) = write_slot-Distinct s.storages account key prevalue maps.storages maps.slots in
      carries refl refl maps.accounts h i maps.codes
  undo_entry-Kept (code_change account prevcode prevhash) s maps =
      carries refl refl (update_account-Distinct s.accounts account _ maps.accounts) maps.storages
        maps.slots (insert-Distinct prevhash prevcode s.codes maps.codes)
  undo_entry-Kept (refund_change prev) s maps =
      carries refl refl maps.accounts maps.storages maps.slots maps.codes
  undo_entry-Kept (add_log_change txhash) s maps =
      elim (Option-cases (drop_log s.logs txhash (logs_of (lookup txhash s.logs)))) [
        | inl panics ↦ rw (panics, undo_entry) tt
        | inr (logs, dropped) ↦
            rw (dropped, undo_entry)
              (carries refl refl maps.accounts maps.storages maps.slots maps.codes)
      ]
  undo_entry-Kept (add_preimage_change hash) s maps =
      carries refl refl maps.accounts maps.storages maps.slots maps.codes
  undo_entry-Kept (touch_change account) s maps = Carries-refl s maps
  undo_entry-Kept (access_list_add_account_change address) s maps =
      carries refl refl maps.accounts maps.storages maps.slots maps.codes
  undo_entry-Kept (access_list_add_slot_change address slot) s maps =
      elim (Option-cases (delete_slot s.access_list address slot)) [
        | inl panics ↦ rw (panics, undo_entry) tt
        | inr (access_list, deleted) ↦
            rw (deleted, undo_entry)
              (carries refl refl maps.accounts maps.storages maps.slots maps.codes)
      ]

  undo_entries-Kept : (es : List Entry) (s : PikaStateDb d) → IsMaps s → Kept s (undo_entries es s)
  unfolding undo_entries
  undo_entries-Kept [] s maps = Carries-refl s maps
  undo_entries-Kept (e ∷ es) s maps = elim (Option-cases (undo_entries es s)) [
    | inl panics ↦ rw (panics) tt
    | inr (t, undone) ↦
        let h = subst (Kept s) undone (undo_entries-Kept es s maps) in
        rw (undone) (Kept-trans s t (undo_entry e t) h (undo_entry-Kept e t h.maps))
  ]

  revert-Kept : (s : PikaStateDb d) (n : ℕ) → IsMaps s → Kept s (revert s n)
  unfolding revert
  revert-Kept s n maps = elim (Bool-cases (ltb (length s.journal.entries) n)) [
    | inl beyond ↦ rw (beyond) tt
    | inr within ↦ elim (Option-cases (undo_entries (drop n s.journal.entries) s)) [
      | inl panics ↦ rw (within) (rw (panics) tt)
      | inr (t, undone) ↦
          let h = subst (Kept s) undone (undo_entries-Kept (drop n s.journal.entries) s maps) in
          rw (within) (
            rw (undone) (
              carries h.db h.block_number h.maps.accounts h.maps.storages h.maps.slots
                h.maps.codes))
    ]
  ]

  revert_to_snapshot-Kept :
      (s : PikaStateDb d) (id : ℕ) → IsMaps s → Kept s (revert_to_snapshot s id)
  unfolding revert_to_snapshot
  revert_to_snapshot-Kept s id maps = elim (Option-cases (find_revision id s.valid_revisions)) [
    | inl unknown ↦ rw (unknown, revert_to_snapshot) tt
    | inr (r, found) ↦ elim (Option-cases (revert s r.1)) [
      | inl panics ↦ rw (found, revert_to_snapshot) (rw (panics) tt)
      | inr (t, reverted) ↦
          let h = subst (Kept s) reverted (revert-Kept s r.1 maps) in
          rw (found, revert_to_snapshot)
            (rw (reverted) (
              carries h.db h.block_number h.maps.accounts h.maps.storages h.maps.slots
                h.maps.codes))
    ]
  ]

  leave-Kept :
      (reverted : Bool) (id : ℕ) (s : PikaStateDb d) → IsMaps s → Kept s (leave reverted id s)
  unfolding leave
  leave-Kept true id s maps = revert_to_snapshot-Kept s id maps
  leave-Kept false id s maps = Carries-refl s maps

  pub leave-Carries :
      (reverted : Bool) (id : ℕ) (s t : PikaStateDb d)
      → IsMaps s
      → leave reverted id s ≡ some t
      → Carries s t
  leave-Carries reverted id s t maps e = subst (Kept s) e (leave-Kept reverted id s maps)

  pub snapshot-Carries : (s : PikaStateDb d) → IsMaps s → Carries s (snapshot s).1
  unfolding snapshot
  snapshot-Carries s maps = carries refl refl maps.accounts maps.storages maps.slots maps.codes

  run-Kept : (p : Program) (s : PikaStateDb d) → IsMaps s → Kept s (run p s)
  unfolding run
  run-Kept stop s maps = Carries-refl s maps
  run-Kept (act op rest) s maps =
      let h = step-Carries s maps op in
      Kept-trans s (step s op) (run rest (step s op)) h (run-Kept rest (step s op) h.maps)
  run-Kept (call body reverted rest) s maps =
      let (id, s') = snapshot s in
      let h = snapshot-Carries s maps in
      >>=-Kept s (run body s' >>= leave reverted id) (run rest)
        (>>=-Kept s (run body s') (leave reverted id)
          (Kept-trans s s' (run body s') h (run-Kept body s' h.maps))
          (λ t i. Kept-trans s t (leave reverted id t) i (leave-Kept reverted id t i.maps)))
        (λ t i. Kept-trans s t (run rest t) i (run-Kept rest t i.maps))

  -- A program of nested frames, some of them reverted, that does not panic leaves the store and the
  -- block as they were, and no map of the state with a key twice, if none had one before.
  pub run-Carries : (p : Program) (s t : PikaStateDb d) → IsMaps s → run p s ≡ some t → Carries s t
  run-Carries p s t maps e = subst (Kept s) e (run-Kept p s maps)
