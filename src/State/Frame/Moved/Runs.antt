-- ===== src/State/Frame/Moved/Runs.antt =====
-- Programs of nested frames over two stores that read alike at the block of the state database.
use mathlib.Core.Path.{subst}
use evm_executor.Prelude.{
  ℕ, ◌≡◌, refl, sym, ap, ◌∙◌, Bool, true, false, Option, none, some, List, [], ◌∷◌, lookup, drop,
  arith, Option-cases, inl, inr,
}
use evm_executor.Deps.{Deps}
use evm_executor.State.Db.{PikaStateDb}
use evm_executor.State.AccessList.{delete_slot}
use evm_executor.State.Journal.{
  Entry, create_object_change, reset_object_change, suicide_change, balance_change, nonce_change,
  storage_change, code_change, refund_change, add_log_change, add_preimage_change, touch_change,
  access_list_add_account_change, access_list_add_slot_change,
}
use evm_executor.State.Write.{logs_of}
use evm_executor.State.Undo.{drop_log, undo_entry, undo_entries, revert}
use evm_executor.State.Snapshot.{find_revision, snapshot, revert_to_snapshot}
use evm_executor.State.Commit.Written.{IsMaps}
use evm_executor.State.Frame.{Program, stop, act, call, step, leave, run, ◌>>=◌}
use evm_executor.State.Frame.Carries.{Carries, Carries-trans, step-Carries}
use evm_executor.State.Frame.Programs.{>>=-some, run-Carries, leave-Carries, snapshot-Carries}
use evm_executor.State.Frame.Moved.{Agree, moved, step-moved}

module _ {d : Deps} (db' : d.redis.Db) where
  abbrev pub moved_if : Option (PikaStateDb d) → Option (PikaStateDb d)
  moved_if none = none
  moved_if (some s) = some (moved db' s)

  undo_entry-moved :
      (e : Entry) (s : PikaStateDb d) → undo_entry e (moved db' s) ≡ moved_if (undo_entry e s)
  unfolding undo_entry
  undo_entry-moved (create_object_change account) s = refl
  undo_entry-moved (reset_object_change prev addr) s = refl
  undo_entry-moved (suicide_change account prev balance) s = refl
  undo_entry-moved (balance_change account prev) s = refl
  undo_entry-moved (nonce_change account prev) s = refl
  undo_entry-moved (storage_change account key prevalue) s = refl
  undo_entry-moved (code_change account prevcode prevhash) s = refl
  undo_entry-moved (refund_change prev) s = refl
  undo_entry-moved (add_log_change txhash) s =
      elim (Option-cases (drop_log s.logs txhash (logs_of (lookup txhash s.logs)))) [
        | inl panics ↦ ground arith
        | inr (logs, dropped) ↦ ground arith
      ]
  undo_entry-moved (add_preimage_change hash) s = refl
  undo_entry-moved (touch_change account) s = refl
  undo_entry-moved (access_list_add_account_change address) s = refl
  undo_entry-moved (access_list_add_slot_change address slot) s =
      elim (Option-cases (delete_slot s.access_list address slot)) [
        | inl panics ↦ ground arith
        | inr (access_list, deleted) ↦ ground arith
      ]

  undo_entries-moved :
      (es : List Entry) (s : PikaStateDb d)
      → undo_entries es (moved db' s) ≡ moved_if (undo_entries es s)
  unfolding undo_entries
  undo_entries-moved [] s = refl
  undo_entries-moved (e ∷ es) s = elim (Option-cases (undo_entries es s)) [
    | inl panics ↦ ground (arith, undo_entries-moved es s)
    | inr (t, undone) ↦ ground (arith, undo_entries-moved es s, undo_entry-moved e t)
  ]

  revert_to_snapshot-moved :
      (s : PikaStateDb d) (id : ℕ)
      → revert_to_snapshot (moved db' s) id ≡ moved_if (revert_to_snapshot s id)
  unfolding revert_to_snapshot revert
  revert_to_snapshot-moved s id = elim (Option-cases (find_revision id s.valid_revisions)) [
    | inl unknown ↦ ground arith
    | inr (r, found) ↦ ground (arith, undo_entries-moved (drop r.1 s.journal.entries) s)
  ]

  >>=-moved :
      (o : Option (PikaStateDb d)) (f : PikaStateDb d → Option (PikaStateDb d))
      → ((t : PikaStateDb d) → o ≡ some t → f (moved db' t) ≡ moved_if (f t))
      → (moved_if o >>= f) ≡ moved_if (o >>= f)
  >>=-moved none f h = refl
  >>=-moved (some t) f h = h t refl

  leave-moved :
      (reverted : Bool) (id : ℕ) (s : PikaStateDb d)
      → leave reverted id (moved db' s) ≡ moved_if (leave reverted id s)
  unfolding leave
  leave-moved true id s = revert_to_snapshot-moved s id
  leave-moved false id s = refl

  pub carried :
      {s t : PikaStateDb d}
      → Carries s t
      → Agree d s.block_number s.db db'
      → Agree d t.block_number t.db db'
  carried {s} {t} h agree =
      subst (λ (n : ℕ). Agree d n t.db db') (sym h.block_number)
        (subst (λ (db : d.redis.Db). Agree d s.block_number db db') (sym h.db) agree)

  -- A program of nested frames over a store that answers alike at the block of the state database
  -- does the same: it reads nothing else of the store.
  pub run-moved :
      (p : Program) (s : PikaStateDb d)
      → IsMaps s
      → Agree d s.block_number s.db db'
      → run p (moved db' s) ≡ moved_if (run p s)
  unfolding run snapshot
  run-moved stop s maps agree = refl
  run-moved (act op rest) s maps agree =
      let h = step-Carries s maps op in
      ap (run rest) (step-moved db' s agree op)
      ∙ run-moved rest (step s op) h.maps (carried h agree)
  run-moved (call body reverted rest) s maps agree =
      let (id, s') = snapshot s in
      let h = snapshot-Carries s maps in
      let own = run body s' >>= leave reverted id in
      let carries_body : (t : PikaStateDb d) → run body s' ≡ some t → Carries s t =
        λ t ran. Carries-trans h (run-Carries body s' t h.maps ran) in
      let carries_own : (u : PikaStateDb d) → own ≡ some u → Carries s u = λ u e.
        let (t, ran, left) = >>=-some (run body s') (leave reverted id) u e in
        let i = carries_body t ran in Carries-trans i (leave-Carries reverted id t u i.maps left) in
      ap (λ (o : Option (PikaStateDb d)). o >>= leave reverted id >>= run rest)
        (run-moved body s' h.maps (carried h agree))
      ∙ ap (λ (o : Option (PikaStateDb d)). o >>= run rest)
          (>>=-moved (run body s') (leave reverted id) (λ t e. leave-moved reverted id t))
      ∙ >>=-moved own (run rest)
          (λ u e. run-moved rest u (carries_own u e).maps (carried (carries_own u e) agree))
