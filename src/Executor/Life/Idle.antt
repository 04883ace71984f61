-- ===== src/Executor/Life/Idle.antt =====
-- What the pool of an executor (pkg/executor/executor.go) does in the executor's life.
use mathlib.Core.Option.{some-injective}
use evm_executor.Prelude.{
  ℕ, ◌+◌, ◌≡◌, refl, sym, ap, ◌∙◌, none, some, List, [], ◌∷◌, ◌++◌, length, Option-cases, inl, inr,
  arith,
}
use evm_executor.Worker
use evm_executor.Worker.{Pool, waiting, executing, leave_pool, new_pool, all_returned, word}
use evm_executor.Worker.Counts.{accepted, total, running, run-accounts}
use evm_executor.Executor.Life.{
  Loop, Phase, not_called, signalled, pool_cancelled, queue_closed, finished, Life, Round, Event,
  start, cancel, tick, tick_end, return, stop, round, event_of, new_life, in_pool, start_executor,
  stop_executor, tick_loop, return_loop, end_tick, step, run,
}

module _ {Task : Type 0} where
  -- The events of the pool behind an event of the executor: none of them submits a task.
  abbrev stop_events : Phase → List (Worker.Event Task)
  stop_events signalled = Worker.Event.cancel ∷ []
  stop_events pool_cancelled = Worker.Event.close ∷ []
  stop_events _ = []

  abbrev pool_events : Phase → Event → List (Worker.Event Task)
  pool_events phase start = Worker.Event.start ∷ []
  pool_events phase stop = stop_events phase
  pool_events phase (round r) = event_of r ∷ []
  pool_events phase _ = []

  pub in_pool-run :
      (l l' : Life Task) (e : Worker.Event Task)
      → in_pool l e ≡ some l'
      → (Worker.step l.worker_pool e ≡ some l'.worker_pool)
        × (l'.loops ≡ l.loops)
        × (l'.phase ≡ l.phase)
  unfolding in_pool
  in_pool-run l l' e h = elim (Option-cases (Worker.step l.worker_pool e)) [
    | inl fails ↦ ground (arith, fails)
    | inr (pool, stepped) ↦ ground (arith, stepped)
  ]

  stop-pool :
      (l l' : Life Task) (phase : Phase)
      → l.phase ≡ phase
      → stop_executor l ≡ some l'
      → Worker.run l.worker_pool (stop_events phase) ≡ some l'.worker_pool
  unfolding stop_executor Worker.run in_pool
  stop-pool l l' not_called at h = ground (arith, h)
  stop-pool l l' signalled at h = ground (arith, h)
  stop-pool l l' pool_cancelled at h = ground (arith, h)
  stop-pool l l' queue_closed at h = ground (arith, h)
  stop-pool l l' finished at h = ground (arith, h)

  step-pool :
      (l l' : Life Task) (e : Event)
      → step l e ≡ some l'
      → Worker.run l.worker_pool (pool_events l.phase e) ≡ some l'.worker_pool
  unfolding step Worker.run start_executor tick_loop return_loop end_tick
  step-pool l l' start h = ground (
    arith,
    in_pool-run (record l { loops = l.loops ++ Loop.selecting ∷ [] }) l' Worker.Event.start h,
  )
  step-pool l l' cancel h = ground (arith, h)
  step-pool l l' (tick i) h = ground (arith, h)
  step-pool l l' (tick_end i) h = ground (arith, h)
  step-pool l l' (return i) h = ground (arith, h)
  step-pool l l' stop h = stop-pool l l' l.phase refl h
  step-pool l l' (round r) h = ground (arith, in_pool-run l l' (event_of r) h)

module _ (Task : Type 0) where
  stop_events-none : (phase : Phase) → total (accepted {Task = Task}) (stop_events phase) ≡ 0
  unfolding total accepted
  stop_events-none not_called = refl
  stop_events-none signalled = refl
  stop_events-none pool_cancelled = refl
  stop_events-none queue_closed = refl
  stop_events-none finished = refl

  event_of-none : (r : Round) → accepted (event_of {Task = Task} r) ≡ 0
  unfolding accepted
  event_of-none (Round.take i) = refl
  event_of-none (Round.finish i b) = refl
  event_of-none (Round.leave i) = refl

  pool_events-none :
      (phase : Phase) (e : Event) → total (accepted {Task = Task}) (pool_events phase e) ≡ 0
  unfolding total accepted
  pool_events-none phase start = refl
  pool_events-none phase cancel = refl
  pool_events-none phase (tick i) = refl
  pool_events-none phase (tick_end i) = refl
  pool_events-none phase (return i) = refl
  pool_events-none phase stop = stop_events-none phase
  pool_events-none phase (round r) = omega (arith, event_of-none r)

module _ {Task : Type 0} where
  total-append :
      (f : Worker.Event Task → ℕ) (xs ys : List (Worker.Event Task))
      → total f (xs ++ ys) ≡ total f xs + total f ys
  unfolding total
  total-append f [] ys = omega arith
  total-append f (x ∷ xs) ys = omega (arith, total-append f xs ys)

  pool_run-append :
      (p q r : Pool Task) (xs ys : List (Worker.Event Task))
      → Worker.run p xs ≡ some q
      → Worker.run q ys ≡ some r
      → Worker.run p (xs ++ ys) ≡ some r
  unfolding Worker.run
  pool_run-append p q r [] ys h i =
      ap (λ (s : Pool Task). Worker.run s ys) (some-injective _ _ h) ∙ i
  pool_run-append p q r (x ∷ xs) ys h i = elim (Option-cases (Worker.step p x)) [
    | inl fails ↦ ground (arith, fails)
    | inr (m, stepped) ↦
        rw (stepped, Worker.run)
          (pool_run-append m q r xs ys (sym (rw (stepped, Worker.run) refl) ∙ h) i)
  ]

  -- Whatever the executor does, its pool has a run without a task.
  run-pool :
      (l l' : Life Task) (es : List Event)
      → run l es ≡ some l'
      → (ps : List (Worker.Event Task)) × (Worker.run l.worker_pool ps ≡ some l'.worker_pool)
        × (total accepted ps ≡ 0)
  unfolding run total Worker.run
  run-pool l l' [] h = ([], ap (λ o. elim o [ none ↦ none | some x ↦ some x.worker_pool ]) h, refl)
  run-pool l l' (e ∷ es) h = elim (Option-cases (step l e)) [
    | inl fails ↦ ground (arith, fails)
    | inr (m, stepped) ↦
        let (ps, ran, none_there) = run-pool m l' es (sym (rw (stepped, run) refl) ∙ h) in
        (
          pool_events l.phase e ++ ps,
          pool_run-append l.worker_pool m.worker_pool l'.worker_pool (pool_events l.phase e) ps
              (step-pool l m e stepped) ran,
          omega (
            arith,
            total-append accepted (pool_events l.phase e) ps,
            pool_events-none Task l.phase e,
            none_there,
          ),
        )
  ]

  -- In every life of a new executor, whatever the interleaving, its pool never has a task: the queue is
  -- empty, no worker executes anything, and the counters of the executed and of the failed tasks are 0.
  pub run-idle :
      (worker_count queue_size : ℕ) (es : List Event) (l : Life Task)
      → run (new_life (new_pool worker_count queue_size)) es ≡ some l
      → (length l.worker_pool.task_queue ≡ 0)
        × (running l.worker_pool.workers ≡ 0)
        × (l.worker_pool.tasks_executed ≡ 0)
        × (l.worker_pool.tasks_failed ≡ 0)
  unfolding new_life
  run-idle worker_count queue_size es l h =
      let (ps, ran, none_there) = run-pool (new_life (new_pool worker_count queue_size)) l es h in
      let (tasks, executed, failed, _) =
        run-accounts worker_count queue_size l.worker_pool ps ran in
      (
        omega (arith, tasks, none_there),
        omega (arith, tasks, none_there),
        omega (arith, tasks, none_there, executed),
        omega (arith, tasks, none_there, failed),
      )
