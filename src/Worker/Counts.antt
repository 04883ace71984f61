-- ===== src/Worker/Counts.antt =====
-- The tasks of the worker pool of pkg/worker/pool.go, counted: where an accepted task can be.
use mathlib.Core.Path.{subst}
use mathlib.Core.Option.{some-injective}
use evm_executor.Prelude.{
  ℕ, zero, suc, ◌+◌, ◌%◌, ◌≤◌, ◌<◌, ◌≡◌, refl, sym, ◌∙◌, true, false, some, List, [], ◌∷◌, ◌++◌,
  length, length-append, get_elem?, set, arith, Option-cases, inl, inr,
}
use evm_executor.Worker.{
  word, Worker, waiting, executing, returned, Pool, Event, send, submit, submit_wait, finish,
  new_pool, spawn, has_room, send_task, submit_task, submit_task_wait, take_task, finish_task,
  leave_pool, step, run,
}

module _ {Task : Type 0} where
  -- How many tasks an event puts on the queue, executes without an error, and fails.
  unfoldable pub accepted : Event Task → ℕ
  accepted (submit task send) = 1
  accepted (submit_wait task done send) = 1
  accepted _ = 0

  unfoldable pub succeeded : Event Task → ℕ
  succeeded (finish i true) = 1
  succeeded _ = 0

  unfoldable pub failed : Event Task → ℕ
  failed (finish i false) = 1
  failed _ = 0

  unfoldable pub total : (Event Task → ℕ) → List (Event Task) → ℕ
  total f [] = 0
  total f (e ∷ es) = f e + total f es

  abbrev pub busy : Worker Task → ℕ
  busy (executing task) = 1
  busy _ = 0

  unfoldable pub running : List (Worker Task) → ℕ
  running [] = 0
  running (w ∷ ws) = busy w + running ws

  running-set :
      (ws : List (Worker Task)) (i : ℕ) (w v : Worker Task)
      → get_elem? ws i ≡ some w
      → running (set ws i v) + busy w ≡ running ws + busy v
  unfolding running
  running-set [] i w v e = ground arith
  running-set (x ∷ ws) zero w v e = ground arith
  running-set (x ∷ ws) (suc i) w v e = omega (arith, running-set ws i w v e)

  running-spawn : (ws : List (Worker Task)) (n : ℕ) → running (ws ++ spawn n) ≡ running ws
  unfolding running spawn
  running-spawn [] zero = refl
  running-spawn [] (suc n) = omega (arith, running-spawn [] n)
  running-spawn (w ∷ ws) n = omega (arith, running-spawn ws n)

  -- What one event does to the counts.
  pub record Counted (p p' : Pool Task) (e : Event Task) : Type 0 where
    pub tasks :
        accepted e + running p.workers + length p.task_queue
        ≡ succeeded e + failed e + running p'.workers + length p'.task_queue
    pub executed : p'.tasks_executed ≡ (p.tasks_executed + succeeded e) % word
    pub broken : p'.tasks_failed ≡ (p.tasks_failed + failed e) % word
    pub size : p'.queue_size ≡ p.queue_size
    pub bound : length p'.task_queue ≤ p'.queue_size

  pub step-Counted :
      (p p' : Pool Task) (e : Event Task)
      → length p.task_queue ≤ p.queue_size
      → p.tasks_executed < word
      → p.tasks_failed < word
      → step p e ≡ some p'
      → Counted p p' e
  unfolding step accepted succeeded failed send_task submit_task submit_task_wait has_room take_task
      finish_task leave_pool
  step-Counted p p' Event.start bound small small' s =
      ground (arith, running-spawn p.workers p.worker_count)
  step-Counted p p' (Event.submit task c) bound small small' s =
      ground (arith, length-append p.task_queue (task ∷ []))
  step-Counted p p' (Event.submit_wait task done c) bound small small' s =
      ground (arith, length-append p.task_queue (task ∷ []))
  step-Counted p p' (Event.take i) bound small small' s = grind (
    arith,
    running-set p.workers i waiting returned,
    λ (t : Task). running-set p.workers i waiting (executing t),
  )
  step-Counted p p' (Event.finish i b) bound small small' s =
      grind (arith, λ (t : Task). running-set p.workers i (executing t) waiting)
  step-Counted p p' (Event.leave i) bound small small' s =
      ground (arith, running-set p.workers i waiting returned)
  step-Counted p p' Event.cancel bound small small' s = ground arith
  step-Counted p p' Event.close bound small small' s = ground arith

  -- What a run does to the counts.
  pub record Totalled (p p' : Pool Task) (es : List (Event Task)) : Type 0 where
    pub tasks :
        total accepted es + running p.workers + length p.task_queue
        ≡ total succeeded es + total failed es + running p'.workers + length p'.task_queue
    pub executed : p'.tasks_executed ≡ (p.tasks_executed + total succeeded es) % word
    pub broken : p'.tasks_failed ≡ (p.tasks_failed + total failed es) % word
    pub size : p'.queue_size ≡ p.queue_size
    pub bound : length p'.task_queue ≤ p'.queue_size

  run-Totalled :
      (p p' : Pool Task) (es : List (Event Task))
      → length p.task_queue ≤ p.queue_size
      → p.tasks_executed < word
      → p.tasks_failed < word
      → run p es ≡ some p'
      → Totalled p p' es
  unfolding run total
  run-Totalled p p' [] bound small small' r =
      subst (λ q. Totalled p q []) (some-injective _ _ r)
        (record {
          tasks = refl;
          executed = omega arith;
          broken = omega arith;
          size = refl;
          bound = bound;
        })
  run-Totalled p p' (e ∷ es) bound small small' r = elim (Option-cases (step p e)) [
    | inl stuck ↦ ground arith
    | inr (m, stepped) ↦
        let first = step-Counted p m e bound small small' stepped in
        let rest =
          run-Totalled m p' es first.bound (omega (arith, first.executed))
            (omega (arith, first.broken)) (sym (rw (stepped, run)) ∙ r) in
        record {
          tasks = omega (arith, first.tasks, rest.tasks);
          executed = omega (arith, first.executed, rest.executed);
          broken = omega (arith, first.broken, rest.broken);
          size = rest.size ∙ first.size;
          bound = rest.bound;
        }
  ]

  -- In every run of a new pool, whatever the interleaving, the tasks that were accepted are those that
  -- were executed, those that failed, those that a worker executes and those on the queue, counted;
  -- the pool's counters are the numbers of the executed and the failed ones as 64-bit words, and the
  -- queue holds no more tasks than its size.
  pub run-accounts :
      (worker_count queue_size : ℕ) (p : Pool Task) (es : List (Event Task))
      → run (new_pool worker_count queue_size) es ≡ some p
      → (total accepted es
          ≡ total succeeded es + total failed es + running p.workers + length p.task_queue)
        × (p.tasks_executed ≡ total succeeded es % word)
        × (p.tasks_failed ≡ total failed es % word)
        × (length p.task_queue ≤ queue_size)
  unfolding new_pool running
  run-accounts worker_count queue_size p es r =
      let t =
        run-Totalled (new_pool worker_count queue_size) p es (omega arith) (omega arith)
          (omega arith) r in
      (
        omega (arith, t.tasks),
        omega (arith, t.executed),
        omega (arith, t.broken),
        omega (arith, t.bound, t.size),
      )
