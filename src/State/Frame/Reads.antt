-- ===== src/State/Frame/Reads.antt =====
-- What the reads of pkg/state/statedb.go return in the course of a block.
use mathlib.Core.Option.{some-injective}
use evm_executor.Prelude.{
  ℕ, ◌≡◌, sym, ap, ◌∙◌, Bool, true, false, some, [], drop, arith, ◌==◌, if◌then◌else◌, Option-cases,
  inl, inr,
}
use evm_executor.Deps.{Deps, IsDeps}
use evm_executor.Storage.Ops.{Address, Hash}
use evm_executor.State.Db.{PikaStateDb, new_pika_state_db}
use evm_executor.State.Read.{get_account, get_state, get_code}
use evm_executor.State.Read.Spec.{account_view, slot_view, code_view}
use evm_executor.State.Read.Coherent.{Coherent}
use evm_executor.State.Read.Results.{get_account-eq, get_state-eq, get_code-eq}
use evm_executor.State.Undo.{revert, undo_entries}
use evm_executor.State.Snapshot.{find_revision, snapshot, revert_to_snapshot}
use evm_executor.State.Revert.Core.{core, Coherent-of_core, core-undo_entries}
use evm_executor.State.Frame.{Program, stop, act, call, step, leave, run, ◌>>=◌}
use evm_executor.State.Frame.Invariant.{step-Coherent, new_pika_state_db-Ready}
use evm_executor.State.Frame.Opened.{opened_fields}
use evm_executor.State.Frame.Programs.{>>=-some, run-Carries}

module _ {d : Deps} where
  core-revert : (s t : PikaStateDb d) (n : ℕ) → revert s n ≡ some t → core t ≡ core s
  unfolding revert
  core-revert s t n e = elim (Option-cases (undo_entries (drop n s.journal.entries) s)) [
    | inl panics ↦ ground (arith, panics)
    | inr (u, undone) ↦
        let same : core t ≡ core u = ground (arith, undone) in
        same ∙ core-undo_entries (drop n s.journal.entries) s u undone
  ]

  core-revert_to_snapshot :
      (s t : PikaStateDb d) (id : ℕ) → revert_to_snapshot s id ≡ some t → core t ≡ core s
  unfolding revert_to_snapshot
  core-revert_to_snapshot s t id e = elim (Option-cases (find_revision id s.valid_revisions)) [
    | inl unknown ↦ ground (arith, unknown)
    | inr (r, found) ↦ elim (Option-cases (revert s r.1)) [
      | inl panics ↦ ground (arith, panics)
      | inr (u, reverted) ↦
          let same : core t ≡ core u = ground (arith, reverted) in
          same ∙ core-revert s u r.1 reverted
    ]
  ]

  leave-Coherent :
      (reverted : Bool) (id : ℕ) (s t : PikaStateDb d)
      → leave reverted id s ≡ some t
      → Coherent s
      → Coherent t
  unfolding leave
  leave-Coherent true id s t e h = Coherent-of_core (core-revert_to_snapshot s t id e) h
  leave-Coherent false id s t e h = Coherent-of_core (ap core (some-injective _ _ (sym e))) h

  snapshot-Coherent : (s : PikaStateDb d) → Coherent s → Coherent (snapshot s).1
  unfolding snapshot
  snapshot-Coherent s h = record {
    account_level = h.account_level;
    slot_level = h.slot_level;
    code_level = h.code_level;
  }

  module _ (laws : IsDeps d) where
    -- Whatever a program of frames does, the caches hold what the store answers.
    run-Coherent : (p : Program) (s t : PikaStateDb d) → Coherent s → run p s ≡ some t → Coherent t
    unfolding run
    run-Coherent stop s t h e = Coherent-of_core (ap core (some-injective _ _ (sym e))) h
    run-Coherent (act op rest) s t h e =
        run-Coherent rest (step s op) t (step-Coherent laws s h op) e
    run-Coherent (call body reverted rest) s t h e =
        let (id, s') = snapshot s in
        let (u, own, others) = >>=-some (run body s' >>= leave reverted id) (run rest) t e in
        let (v, ran, left) = >>=-some (run body s') (leave reverted id) u own in
        let h' = run-Coherent body s' v (snapshot-Coherent s h) ran in
        run-Coherent rest u t (leave-Coherent reverted id v u left h') others

    -- In every run of nested frames of state calls other than AddSlotToAccessList, some of
    -- the frames reverted, that does not panic, over a newly opened state database with
    -- caches of any sizes: getAccount returns the account that the run left in the maps, else
    -- the one that the store holds for the block, else a new one; GetState returns the value
    -- that the run left, else the stored one, else zero; and GetCode returns no code for an
    -- account without a code hash, and else the code of the maps under its hash, else the
    -- stored one, else none.
    pub run-reads :
        (db : d.redis.Db) (n state_size storage_size code_size : ℕ) (p : Program)
        (s t : PikaStateDb d)
        → new_pika_state_db d db n state_size storage_size code_size ≡ some s
        → run p s ≡ some t
        → (a : Address) (x : Hash)
        → ((get_account t a).0 ≡ account_view d db n t.accounts a)
          × ((get_state t a x).0 ≡ slot_view d db n t.storages a x)
          × ((get_code t a).0 ≡ (
              let hash = (account_view d db n t.accounts a).code_hash in
              if hash == 0 then [] else code_view d db t.codes hash))
    run-reads db n state_size storage_size code_size p s t opened ran a x =
        let ready = new_pika_state_db-Ready laws db n state_size storage_size code_size s opened in
        let (same_db, same_block, maps) =
          opened_fields db n state_size storage_size code_size opened in
        let h = run-Coherent p s t ready.coherent ran in
        let carried = run-Carries p s t maps ran in
        let at_db : t.db ≡ db = carried.db ∙ same_db in
        let at_block : t.block_number ≡ n = carried.block_number ∙ same_block in
        (
          get_account-eq t a h ∙ (λ i. account_view d (at_db i) (at_block i) t.accounts a),
          get_state-eq t a x h ∙ (λ i. slot_view d (at_db i) (at_block i) t.storages a x),
          get_code-eq t laws a h ∙ (λ i.
              let hash = (account_view d (at_db i) (at_block i) t.accounts a).code_hash in
              if hash == 0 then [] else code_view d (at_db i) t.codes hash),
        )
