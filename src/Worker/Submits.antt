-- ===== src/Worker/Submits.antt =====
-- What `Submit` of pkg/worker/pool.go answers.
use evm_executor.Prelude.{
  ◌≡◌, refl, true, false, Option, none, some, [], ◌∷◌, ◌++◌, arith, Bool-cases, inl, inr,
}
use evm_executor.Worker.{
  Pool, Case, own_done, pool_done, send, otherwise, SubmitError, context_error, shutting_down,
  queue_full, Sent, not_ready, panics, answers, has_room, send_task, submit_task,
}

module _ {Task : Type 0} where
  -- The pool that an answer is to leave: with the task at the end of the queue if it is no error.
  unfoldable pub left : Pool Task → Task → Option SubmitError → Pool Task
  left p task none = record p { task_queue = p.task_queue ++ task ∷ [] }
  left p task (some e) = p

  -- When an answer is right: no error if the queue has room, an error for its reason only.
  unfoldable pub IsJustified : Pool Task → Option SubmitError → Type 0
  IsJustified p none = has_room p ≡ true
  IsJustified p (some context_error) = ⊥
  IsJustified p (some shutting_down) = p.cancelled ≡ true
  IsJustified p (some queue_full) = (p.cancelled ≡ false) × (has_room p ≡ false)

  -- A case that does not panic and that, if it is ready, answers rightly.
  unfoldable pub IsRight : Pool Task → Task → Sent Task → Type 0
  IsRight p task not_ready = Unit {0}
  IsRight p task panics = ⊥
  IsRight p task (answers p' e) = (p' ≡ left p task e) × IsJustified p e

  some_case_answers :
      (p : Pool Task) (task : Task)
      → p.closed ≡ false
      → (c : Case) × (p' : Pool Task) × (e : Option SubmitError) × (submit_task p task c
          ≡ answers p' e)
  unfolding submit_task send_task
  some_case_answers p task opened = elim (Bool-cases p.cancelled) [
    | inl stopping ↦ (pool_done, p, some shutting_down, ground arith)
    | inr live ↦ elim (Bool-cases (has_room p)) [
      | inl room ↦ (send, record p { task_queue = p.task_queue ++ task ∷ [] }, none, ground arith)
      | inr crowded ↦ (otherwise, p, some queue_full, ground arith)
    ]
  ]

  case-IsRight :
      (p : Pool Task) (task : Task) (c : Case)
      → p.closed ≡ false
      → IsRight p task (submit_task p task c)
  unfolding submit_task send_task has_room left IsJustified IsRight
  case-IsRight p task own_done opened = tt
  case-IsRight p task pool_done opened = elim (Bool-cases p.cancelled) [
    | inl stopping ↦ rw stopping (refl, refl)
    | inr live ↦ rw live tt
  ]
  case-IsRight p task send opened = elim (Bool-cases (has_room p)) [
    | inl room ↦ rw (opened, room) (refl, room)
    | inr crowded ↦ rw (opened, crowded) tt
  ]
  case-IsRight p task otherwise opened = elim (Bool-cases p.cancelled) [
    | inl stopping ↦ rw stopping tt
    | inr live ↦ elim (Bool-cases (has_room p)) [
      | inl room ↦ rw (live, opened, room) tt
      | inr crowded ↦ rw (live, opened, crowded) (refl, (refl, crowded))
    ]
  ]

  -- On a pool whose queue is not closed, `Submit` always has a case that is ready, so it never
  -- blocks, and no case of it panics: each that is ready returns, either without an error, the
  -- task put at the end of a queue that had room, or with the pool as it was and an error, that
  -- it is shutting down only if its context is cancelled, and that the queue is full only if it
  -- is and the context is not.
  pub submit_answers :
      (p : Pool Task) (task : Task) (any : Case)
      → p.closed ≡ false
      → ((c : Case) × (p' : Pool Task) × (e : Option SubmitError) × (submit_task p task c
            ≡ answers p' e))
        × IsRight p task (submit_task p task any)
  submit_answers p task any opened =
      (some_case_answers p task opened, case-IsRight p task any opened)
