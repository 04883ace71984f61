-- ===== src/Worker/Order.antt =====
-- The order of the tasks of the worker pool of pkg/worker/pool.go.
use mathlib.Core.Option.{some-injective}
use evm_executor.Prelude.{
  ℕ, zero, suc, ◌≡◌, ◌<◌, refl, sym, ap, ◌∙◌, none, some, List, [], ◌∷◌, ◌++◌, length, get_elem?,
  get_elem?-set_self, Option-cases, inl, inr, arith,
}
use evm_executor.Worker.{
  Worker, waiting, executing, Pool, Event, Case, answered, submit, submit_wait, take, send_task,
  submit_task, submit_task_wait, take_task, finish_task, leave_pool, step, run,
}

module _ {Task : Type 0} where
  -- The task that an event puts on the queue.
  unfoldable pub submitted : Event Task → List Task
  submitted (submit task Case.send) = task ∷ []
  submitted (submit_wait task done Case.send) = task ∷ []
  submitted _ = []

  -- The task that a worker has got by an event: what it executes right after it, in the pool given.
  unfoldable pub taken : Pool Task → Event Task → List Task
  taken p (take i) = elim (get_elem? p.workers i) [ some (executing task) ↦ task ∷ [] | _ ↦ [] ]
  taken p _ = []

  unfoldable pub all_submitted : List (Event Task) → List Task
  all_submitted [] = []
  all_submitted (e ∷ es) = submitted e ++ all_submitted es

  unfoldable pub all_taken : Pool Task → List (Event Task) → List Task
  all_taken p [] = []
  all_taken p (e ∷ es) = elim (step p e) [ none ↦ [] | some p' ↦ taken p' e ++ all_taken p' es ]

  append-nil : (xs : List Task) → xs ++ [] ≡ xs
  append-nil [] = refl
  append-nil (x ∷ xs) = ap (◌∷◌ x) (append-nil xs)

  append_assoc : (xs ys zs : List Task) → (xs ++ ys) ++ zs ≡ xs ++ (ys ++ zs)
  append_assoc [] ys zs = refl
  append_assoc (x ∷ xs) ys zs = ap (◌∷◌ x) (append_assoc xs ys zs)

  send-order :
      (p p' : Pool Task) (task : Task)
      → answered (send_task p task) ≡ some p'
      → p.task_queue ++ task ∷ [] ≡ p'.task_queue
  unfolding send_task
  send-order p p' task h = ground (arith, h)

  set-in_range :
      (ws : List (Worker Task)) (i : ℕ) (w : Worker Task) → get_elem? ws i ≡ some w → i < length ws
  set-in_range [] i w h = ground (arith, h)
  set-in_range (x ∷ xs) zero w h = omega arith
  set-in_range (x ∷ xs) (suc i) w h = ground (arith, set-in_range xs i w h)

  take-order :
      (p p' : Pool Task) (i : ℕ)
      → take_task p i ≡ some p'
      → p.task_queue ++ [] ≡ taken p' (take i) ++ p'.task_queue
  unfolding take_task taken
  take-order p p' i h = grind (
    arith,
    h,
    append-nil p.task_queue,
    set-in_range p.workers i waiting,
    λ (w : Worker Task). get_elem?-set_self p.workers i w,
  )

  step-order :
      (p p' : Pool Task) (e : Event Task)
      → step p e ≡ some p'
      → p.task_queue ++ submitted e ≡ taken p' e ++ p'.task_queue
  unfolding step submitted taken submit_task submit_task_wait take_task finish_task leave_pool
  step-order p p' Event.start h = ground (arith, h, append-nil p.task_queue)
  step-order p p' (submit task Case.send) h = send-order p p' task h
  step-order p p' (submit task Case.own_done) h = ground (arith, h)
  step-order p p' (submit task Case.pool_done) h = ground (arith, h, append-nil p.task_queue)
  step-order p p' (submit task Case.otherwise) h = ground (arith, h, append-nil p.task_queue)
  step-order p p' (submit_wait task done Case.send) h = send-order p p' task h
  step-order p p' (submit_wait task done Case.own_done) h =
      ground (arith, h, append-nil p.task_queue)
  step-order p p' (submit_wait task done Case.pool_done) h =
      ground (arith, h, append-nil p.task_queue)
  step-order p p' (submit_wait task done Case.otherwise) h = ground (arith, h)
  step-order p p' (take i) h = take-order p p' i h
  step-order p p' (Event.finish i b) h = ground (arith, h, append-nil p.task_queue)
  step-order p p' (Event.leave i) h = ground (arith, h, append-nil p.task_queue)
  step-order p p' Event.cancel h = ground (arith, h, append-nil p.task_queue)
  step-order p p' Event.close h = ground (arith, h, append-nil p.task_queue)

  -- In every run of a pool, whatever the interleaving, the tasks that were on the queue at
  -- first and those that were accepted, in the order in which they were, are those that the
  -- workers got to execute, in the order in which they took them, and then those that are on
  -- the queue at the end.
  pub run-order :
      (p p' : Pool Task) (es : List (Event Task))
      → run p es ≡ some p'
      → p.task_queue ++ all_submitted es ≡ all_taken p es ++ p'.task_queue
  unfolding run all_submitted all_taken
  run-order p p' [] h =
      append-nil p.task_queue ∙ ap (λ (q : Pool Task). q.task_queue) (some-injective _ _ h)
  run-order p p' (e ∷ es) h = elim (Option-cases (step p e)) [
    | inl fails ↦ ground (arith, fails)
    | inr (m, stepped) ↦
        let rest = run-order m p' es (sym (rw (stepped, run) refl) ∙ h) in
        sym (append_assoc p.task_queue (submitted e) (all_submitted es))
        ∙ ap (λ (q : List Task). q ++ all_submitted es) (step-order p m e stepped)
        ∙ append_assoc (taken m e) m.task_queue (all_submitted es)
        ∙ ap (λ (q : List Task). taken m e ++ q) rest
        ∙ sym (append_assoc (taken m e) (all_taken m es) p'.task_queue)
        ∙ ap (λ (q : List Task). q ++ p'.task_queue) (sym (rw (stepped, all_taken) refl))
  ]
