-- ===== src/Worker/Drains.antt =====
-- `Stop` of pkg/worker/pool.go, which closes the queue and waits for the workers: what is left then.
use mathlib.Core.Path.{subst}
use mathlib.Core.Option.{some-injective}
use evm_executor.Prelude.{
  ℕ, zero, suc, ◌+◌, ◌≡◌, ◌<◌, refl, sym, ap, ◌∙◌, Bool, true, false, ◌||◌, some, List, [], ◌∷◌,
  ◌++◌, length, set, arith, Option-cases, inl, inr,
}
use evm_executor.Worker.{
  Worker, waiting, executing, returned, Pool, Event, new_pool, spawn, has_room, send_task,
  submit_task, submit_task_wait, take_task, finish_task, leave_pool, step, run, all_returned,
}
use evm_executor.Worker.Counts.{accepted, succeeded, failed, total, running, run-accounts}

module _ {Task : Type 0} where
  abbrev is_returned : Worker Task → Bool
  is_returned returned = true
  is_returned _ = false

  has_returned : List (Worker Task) → Bool
  has_returned [] = false
  has_returned (w ∷ ws) = is_returned w || has_returned ws

  has_returned-set :
      (ws : List (Worker Task)) (i : ℕ) (v : Worker Task)
      → is_returned v ≡ false
      → has_returned (set ws i v) ≡ true
      → has_returned ws ≡ true
  unfolding has_returned
  has_returned-set [] i v n h = ground arith
  has_returned-set (w ∷ ws) zero v n h = ground arith
  has_returned-set (w ∷ ws) (suc i) v n h = ground (arith, has_returned-set ws i v n)

  has_returned-spawn :
      (ws : List (Worker Task)) (n : ℕ) → has_returned (ws ++ spawn n) ≡ has_returned ws
  unfolding has_returned spawn
  has_returned-spawn [] zero = refl
  has_returned-spawn [] (suc n) = has_returned-spawn [] n
  has_returned-spawn (w ∷ ws) n = ap (λ b. is_returned w || b) (has_returned-spawn ws n)

  -- Without a cancellation, a worker returns only when the queue is closed and empty.
  record Settled (p : Pool Task) : Type 0 where
    settled :
        p.cancelled ≡ false
        → has_returned p.workers ≡ true
        → (p.closed ≡ true) × (p.task_queue ≡ [])

  step-Settled : (p p' : Pool Task) (e : Event Task) → Settled p → step p e ≡ some p' → Settled p'
  unfolding step send_task submit_task submit_task_wait has_room take_task finish_task leave_pool
  step-Settled p p' Event.start h s = record {
    settled = λ c r. ground (arith, h.settled, has_returned-spawn p.workers p.worker_count);
  }
  step-Settled p p' (Event.submit task c) h s = record {
    settled = λ c r. ground (arith, h.settled);
  }
  step-Settled p p' (Event.submit_wait task done c) h s = record {
    settled = λ c r. ground (arith, h.settled);
  }
  step-Settled p p' (Event.take i) h s = record {
    settled = λ c r.
        grind (arith, h.settled, λ (t : Task). has_returned-set p.workers i (executing t) refl);
  }
  step-Settled p p' (Event.finish i b) h s = record {
    settled = λ c r. grind (arith, h.settled, has_returned-set p.workers i waiting refl);
  }
  step-Settled p p' (Event.leave i) h s = record { settled = λ c r. ground (arith, h.settled) }
  step-Settled p p' Event.cancel h s = record { settled = λ c r. ground (arith, h.settled) }
  step-Settled p p' Event.close h s = record { settled = λ c r. ground (arith, h.settled) }

  run-Settled :
      (p p' : Pool Task) (es : List (Event Task)) → Settled p → run p es ≡ some p' → Settled p'
  unfolding run
  run-Settled p p' [] h r = subst Settled (some-injective _ _ r) h
  run-Settled p p' (e ∷ es) h r = elim (Option-cases (step p e)) [
    | inl stuck ↦ ground arith
    | inr (m, stepped) ↦
        run-Settled m p' es (step-Settled p m e h stepped) (sym (rw (stepped, run)) ∙ r)
  ]

  returned-idle : (ws : List (Worker Task)) → all_returned ws ≡ true → running ws ≡ 0
  unfolding all_returned running
  returned-idle [] h = refl
  returned-idle (waiting ∷ ws) h = ground arith
  returned-idle (executing t ∷ ws) h = ground arith
  returned-idle (returned ∷ ws) h = omega (arith, returned-idle ws h)

  some_returned :
      (ws : List (Worker Task)) → 0 < length ws → all_returned ws ≡ true → has_returned ws ≡ true
  unfolding all_returned has_returned
  some_returned [] l h = ground arith
  some_returned (waiting ∷ ws) l h = ground arith
  some_returned (executing t ∷ ws) l h = ground arith
  some_returned (returned ∷ ws) l h = refl

  -- In every run of a new pool that has at least one worker and was not cancelled, once all the
  -- workers have returned, as `Stop` waits for, the queue is empty, and every task that was accepted
  -- has been executed or has failed.
  pub stop-drains :
      (worker_count queue_size : ℕ) (p : Pool Task) (es : List (Event Task))
      → run (new_pool worker_count queue_size) es ≡ some p
      → 0 < length p.workers
      → p.cancelled ≡ false
      → all_returned p.workers ≡ true
      → (p.task_queue ≡ []) × (total accepted es ≡ total succeeded es + total failed es)
  unfolding new_pool has_returned
  stop-drains worker_count queue_size p es r started live stopped =
      let initial : Settled (new_pool worker_count queue_size) = record {
        settled = λ c h. ground arith;
      } in
      let end = run-Settled (new_pool worker_count queue_size) p es initial r in
      let (_, drained) = end.settled live (some_returned p.workers started stopped) in
      let (tasks, _, _, _) = run-accounts worker_count queue_size p es r in
      (drained, ground (arith, tasks, drained, returned-idle p.workers stopped))
