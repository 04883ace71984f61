-- ===== src/Executor/Life/Stopped.antt =====
-- What Stop of pkg/executor/executor.go waits for, and what it does not.
use mathlib.Core.Path.{subst}
use mathlib.Core.Option.{some-injective}
use evm_executor.Prelude.{
  ℕ, ◌≡◌, refl, sym, ap, ◌∙◌, Bool, true, false, some, List, [], ◌∷◌, ◌++◌, length, map, get_elem?,
  set, Option-cases, inl, inr, arith,
}
use evm_executor.Worker
use evm_executor.Worker.{Pool, waiting, executing, leave_pool, new_pool, all_returned}
use evm_executor.Worker.Counts.{running}
use evm_executor.Executor.Life.{
  Loop, Phase, not_called, signalled, pool_cancelled, queue_closed, finished, Life, Round, Event,
  start, cancel, tick, tick_end, return, stop, round, event_of, new_life, in_pool, start_executor,
  stop_executor, tick_loop, return_loop, end_tick, step, run,
}
use evm_executor.Executor.Life.Idle.{in_pool-run, run-idle}

-- `Stop` has cancelled the pool when it goes on to close its queue.
abbrev after_cancel : Phase → Bool
after_cancel not_called = false
after_cancel signalled = false
after_cancel _ = true

module _ {Task : Type 0} where
  Cancelled : Life Task → Type 0
  Cancelled l = after_cancel l.phase ≡ true → l.worker_pool.cancelled ≡ true

  cancelled_after :
      (p p' : Pool Task) (e : Worker.Event Task)
      → Worker.step p e ≡ some p'
      → p.cancelled ≡ true
      → p'.cancelled ≡ true
  unfolding Worker.step Worker.take_task Worker.finish_task Worker.leave_pool Worker.submit_task
      Worker.submit_task_wait Worker.send_task
  cancelled_after p p' Worker.Event.start h c = ground (arith, h)
  cancelled_after p p' (Worker.Event.submit task k) h c = ground (arith, h)
  cancelled_after p p' (Worker.Event.submit_wait task done k) h c = ground (arith, h)
  cancelled_after p p' (Worker.Event.take i) h c = ground (arith, h)
  cancelled_after p p' (Worker.Event.finish i b) h c = ground (arith, h)
  cancelled_after p p' (Worker.Event.leave i) h c = ground (arith, h)
  cancelled_after p p' Worker.Event.cancel h c = ground (arith, h)
  cancelled_after p p' Worker.Event.close h c = ground (arith, h)

  in_pool-Cancelled :
      (l l' : Life Task) (e : Worker.Event Task)
      → in_pool l e ≡ some l'
      → Cancelled l
      → Cancelled l'
  unfolding Cancelled
  in_pool-Cancelled l l' e h c after =
      let (stepped, _, phase) = in_pool-run l l' e h in
      cancelled_after l.worker_pool l'.worker_pool e stepped
        (c (ap after_cancel (sym phase) ∙ after))

  stop-Cancelled :
      (l l' : Life Task) (phase : Phase)
      → l.phase ≡ phase
      → stop_executor l ≡ some l'
      → Cancelled l
      → Cancelled l'
  unfolding Cancelled stop_executor in_pool Worker.step
  stop-Cancelled l l' not_called at h c = ground (arith, h)
  stop-Cancelled l l' signalled at h c = ground (arith, h)
  stop-Cancelled l l' pool_cancelled at h c = ground (arith, h)
  stop-Cancelled l l' queue_closed at h c = ground (arith, h)
  stop-Cancelled l l' finished at h c = ground (arith, h)

  step-Cancelled : (l l' : Life Task) (e : Event) → step l e ≡ some l' → Cancelled l → Cancelled l'
  unfolding step Cancelled start_executor tick_loop return_loop end_tick
  step-Cancelled l l' start h c =
      in_pool-Cancelled (record l { loops = l.loops ++ Loop.selecting ∷ [] }) l' Worker.Event.start
        h c
  step-Cancelled l l' cancel h c = ground (arith, h)
  step-Cancelled l l' (tick i) h c = ground (arith, h)
  step-Cancelled l l' (tick_end i) h c = ground (arith, h)
  step-Cancelled l l' (return i) h c = ground (arith, h)
  step-Cancelled l l' stop h c = stop-Cancelled l l' l.phase refl h c
  step-Cancelled l l' (round r) h c = in_pool-Cancelled l l' (event_of r) h c

  run-Cancelled :
      (l l' : Life Task) (es : List Event) → run l es ≡ some l' → Cancelled l → Cancelled l'
  unfolding run
  run-Cancelled l l' [] h c = subst Cancelled (some-injective _ _ h) c
  run-Cancelled l l' (e ∷ es) h c = elim (Option-cases (step l e)) [
    | inl fails ↦ ground (arith, fails)
    | inr (m, stepped) ↦
        run-Cancelled m l' es (sym (rw (stepped, run) refl) ∙ h) (step-Cancelled l m e stepped c)
  ]

  get_elem?-middle :
      (pre ws : List (Worker.Worker Task)) (w : Worker.Worker Task)
      → get_elem? (pre ++ w ∷ ws) (length pre) ≡ some w
  get_elem?-middle [] ws w = refl
  get_elem?-middle (x ∷ pre) ws w = get_elem?-middle pre ws w

  set-middle :
      (pre ws : List (Worker.Worker Task)) (w v : Worker.Worker Task)
      → set (pre ++ w ∷ ws) (length pre) v ≡ (pre ++ v ∷ []) ++ ws
  set-middle [] ws w v = refl
  set-middle (x ∷ pre) ws w v = ap (◌∷◌ x) (set-middle pre ws w v)

  returned-append :
      (pre : List (Worker.Worker Task))
      → all_returned pre ≡ true
      → all_returned (pre ++ Worker.Worker.returned ∷ []) ≡ true
  unfolding all_returned
  returned-append [] h = refl
  returned-append (waiting ∷ pre) h = h
  returned-append (executing t ∷ pre) h = h
  returned-append (Worker.Worker.returned ∷ pre) h = returned-append pre h

  middle-append :
      (pre ws : List (Worker.Worker Task)) (w : Worker.Worker Task)
      → pre ++ w ∷ ws ≡ (pre ++ w ∷ []) ++ ws
  middle-append [] ws w = refl
  middle-append (x ∷ pre) ws w = ap (◌∷◌ x) (middle-append pre ws w)

  append-nil : (ws : List (Worker.Worker Task)) → ws ++ [] ≡ ws
  append-nil [] = refl
  append-nil (w ∷ ws) = ap (◌∷◌ w) (append-nil ws)

  leave-step :
      (pre ws : List (Worker.Worker Task)) (l : Life Task)
      → l.worker_pool.workers ≡ pre ++ waiting ∷ ws
      → l.worker_pool.cancelled ≡ true
      → step l (round (Round.leave (length pre)))
        ≡ some (record l {
          worker_pool = record l.worker_pool {
            workers = (pre ++ Worker.Worker.returned ∷ []) ++ ws;
          };
        })
  unfolding step in_pool Worker.step leave_pool
  leave-step pre ws l e c =
      let found : get_elem? l.worker_pool.workers (length pre) ≡ some waiting =
        ap (λ (w : List (Worker.Worker Task)). get_elem? w (length pre)) e
        ∙ get_elem?-middle pre ws waiting in
      let put : set l.worker_pool.workers (length pre) Worker.Worker.returned
          ≡ (pre ++ Worker.Worker.returned ∷ []) ++ ws =
        ap (λ (w : List (Worker.Worker Task)). set w (length pre) Worker.Worker.returned) e
        ∙ set-middle pre ws waiting Worker.Worker.returned in
      ground (arith, found, c, put)

  -- The workers that wait leave a cancelled pool one after the other.
  workers_leave :
      (pre ws : List (Worker.Worker Task)) (l : Life Task)
      → l.worker_pool.workers ≡ pre ++ ws
      → all_returned pre ≡ true
      → running ws ≡ 0
      → l.worker_pool.cancelled ≡ true
      → (rs : List Round) × (l' : Life Task) × (run l (map round rs) ≡ some l')
        × (all_returned l'.worker_pool.workers ≡ true)
        × (l'.loops ≡ l.loops)
        × (l'.phase ≡ l.phase)
  unfolding run running
  workers_leave pre [] l e h idle c =
      ([], l, refl, ap all_returned (e ∙ append-nil pre) ∙ h, refl, refl)
  workers_leave pre (waiting ∷ ws) l e h idle c =
      let next : Life Task = record l {
        worker_pool = record l.worker_pool { workers = (pre ++ Worker.Worker.returned ∷ []) ++ ws };
      } in
      let (rs, l', ran, all, loops, phase) =
        workers_leave (pre ++ Worker.Worker.returned ∷ []) ws next refl (returned-append pre h)
          (omega (arith, idle)) c in
      (Round.leave (length pre) ∷ rs, l', rw (leave-step pre ws l e c, run) ran, all, loops, phase)
  workers_leave pre (executing t ∷ ws) l e h idle c = absurd (omega (arith, idle))
  workers_leave pre (Worker.Worker.returned ∷ ws) l e h idle c =
      workers_leave (pre ++ Worker.Worker.returned ∷ []) ws l
        (e ∙ middle-append pre ws Worker.Worker.returned) (returned-append pre h)
        (omega (arith, idle)) c

  -- Whenever the call of Stop has closed the queue of the pool, in any life of a new executor, whatever
  -- the interleaving before, there are rounds of the workers after which Stop closes the client and
  -- returns. The defect: it waits for nothing else, so that every goroutine of run is where it was, and
  -- one that was executing blocks goes on over the closed client.
  pub stop-returns :
      (worker_count queue_size : ℕ) (es : List Event) (l : Life Task)
      → run (new_life (new_pool worker_count queue_size)) es ≡ some l
      → l.phase ≡ queue_closed
      → (rs : List Round) × (l' l'' : Life Task) × (run l (map round rs) ≡ some l')
        × (stop_executor l' ≡ some l'')
        × (l''.phase ≡ finished)
        × (l''.loops ≡ l.loops)
  unfolding new_life Cancelled stop_executor all_returned
  stop-returns worker_count queue_size es l ran closed =
      let (_, idle, _, _) = run-idle worker_count queue_size es l ran in
      let cancelled =
        run-Cancelled (new_life (new_pool worker_count queue_size)) l es ran (λ e. cc e)
          (ap after_cancel closed) in
      let (rs, l', left, all, loops, phase) =
        workers_leave [] l.worker_pool.workers l refl refl idle cancelled in
      let at : l'.phase ≡ queue_closed = phase ∙ closed in
      (
        rs,
        l',
        record l' { phase = finished },
        left,
        rw (at, stop_executor) (rw all refl),
        refl,
        loops,
      )
