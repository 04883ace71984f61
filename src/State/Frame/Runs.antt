-- ===== src/State/Frame/Runs.antt =====
-- Whole runs of nested call frames over the state database of pkg/state/statedb.go.
use evm_executor.Prelude.{◌≡◌, refl, ap, ◌∙◌, Bool, true, false, some}
use evm_executor.Deps.{Deps, IsDeps}
use evm_executor.State.Db.{PikaStateDb}
use evm_executor.State.Snapshot.{snapshot}
use evm_executor.State.Revert.Restores.{Undoable, Undoable-refl, Undoable-trans, Undoable-of_read}
use evm_executor.State.Frame.{Program, stop, act, call, step, leave, run, ◌>>=◌}
use evm_executor.State.Frame.Invariant.{Ready, step-Ready}
use evm_executor.State.Frame.Reverts.{
  Fresh, step-Undoable, snapshot-Ready, snapshot-Undoable, Reverted, revert_to_snapshot-Undoable,
}

module _ {d : Deps} where
  -- Every `CreateAccount` of the run meets an account that is not loaded then.
  abbrev pub Allowed : Program → PikaStateDb d → Type 0
  Allowed stop s = Unit {0}
  Allowed (act op rest) s = Fresh op s × Allowed rest (step s op)
  Allowed (call body reverted rest) s =
      Allowed body (snapshot s).1
      × ((t : PikaStateDb d)
          → (run body (snapshot s).1 >>= leave reverted (snapshot s).0) ≡ some t
          → Allowed rest t)

  -- A run that ended, with what it keeps.
  abbrev Ends : PikaStateDb d → Program → Type 0
  Ends s p = (t : PikaStateDb d) × (run p s ≡ some t) × Ready t × Undoable s t

  leave-Undoable :
      (reverted : Bool) (s s' : PikaStateDb d)
      → Ready s
      → Ready s'
      → Undoable (snapshot s).1 s'
      → (t : PikaStateDb d) × (leave reverted (snapshot s).0 s' ≡ some t) × Ready t × Undoable s t
  unfolding leave
  leave-Undoable false s s' ready ready' u =
      (s', refl, ready', Undoable-trans (snapshot-Undoable s) u)
  leave-Undoable true s s' ready ready' u =
      let (t, left, ready_t, back) = revert_to_snapshot-Undoable s s' ready ready' u in
      (t, left, ready_t, Undoable-of_read s t back.entries back.revisions back.shows)

  -- Every allowed run ends without a panic, keeps the invariant, and can be undone by the journal.
  pub run-Undoable : IsDeps d → (p : Program) (s : PikaStateDb d) → Ready s → Allowed p s → Ends s p
  unfolding run
  run-Undoable laws stop s ready a = (s, refl, ready, Undoable-refl s)
  run-Undoable laws (act op rest) s ready a =
      let (t, ran, ready_t, u) =
        run-Undoable laws rest (step s op) (step-Ready laws s ready op) a.1 in
      (t, ran, ready_t, Undoable-trans (step-Undoable laws s ready op a.0) u)
  run-Undoable laws (call body reverted rest) s ready a =
      let (s', ran, ready', u) =
        run-Undoable laws body (snapshot s).1 (snapshot-Ready s ready) a.0 in
      let (m, left, ready_m, u_m) = leave-Undoable reverted s s' ready ready' u in
      let frame = ap (λ o. o >>= leave reverted (snapshot s).0) ran ∙ left in
      let (t, ran_on, ready_t, u_t) = run-Undoable laws rest m ready_m (a.1 m frame) in
      (t, ap (λ o. o >>= run rest) frame ∙ ran_on, ready_t, Undoable-trans u_m u_t)

  -- From a state with the invariant, a frame whose body is allowed and that is then reverted ends
  -- without a panic, in a state with the invariant that shows all that the state before it showed,
  -- with the same journal entries and the same valid snapshots.
  pub run-Reverted :
      IsDeps d
      → (body : Program) (s : PikaStateDb d) → Ready s
      → Allowed body (snapshot s).1
      → (t : PikaStateDb d) × (run (call body true stop) s ≡ some t) × Ready t × Reverted t s
  unfolding run leave
  run-Reverted laws body s ready allowed =
      let (s', ran, ready', u) =
        run-Undoable laws body (snapshot s).1 (snapshot-Ready s ready) allowed in
      let (t, left, ready_t, back) = revert_to_snapshot-Undoable s s' ready ready' u in
      (
        t,
        ap (λ o. o >>= leave true (snapshot s).0 >>= run stop) ran ∙ ap (λ o. o >>= run stop) left,
        ready_t,
        back,
      )
