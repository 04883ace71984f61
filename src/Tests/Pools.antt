-- ===== src/Tests/Pools.antt =====
-- The theorems on the worker pool at a concrete run: two workers execute two tasks, of which one
-- fails, and the pool is stopped.
use evm_executor.Prelude.{
  ◌++◌, ℕ, ◌+◌, ◌%◌, ◌≤◌, ◌≡◌, refl, true, false, Option, some, List, [], ◌∷◌, length, arith,
}
use evm_executor.Worker.{
  Case, SubmitError, word, Pool, Event, send, start, submit, submit_wait, take, finish, close,
  returned, new_pool, spawn, has_room, send_task, submit_task, submit_task_wait, take_task,
  finish_task, leave_pool, step, run, all_returned, answers,
}
use evm_executor.Worker.Counts.{accepted, succeeded, failed, total, running, run-accounts}
use evm_executor.Worker.Submits.{IsRight, submit_answers}
use evm_executor.Worker.Order.{all_submitted, all_taken, run-order}
use evm_executor.Worker.Drains.{stop-drains}

abbrev events : List (Event ℕ)
events =
    start
    ∷ submit 7 send
    ∷ submit_wait 8 false send
    ∷ take 0
    ∷ take 1
    ∷ finish 1 false
    ∷ finish 0 true
    ∷ close
    ∷ take 0
    ∷ take 1
    ∷ []

abbrev stopped : Pool ℕ
stopped = record {
  worker_count = 2;
  queue_size = 4;
  task_queue = [];
  closed = true;
  cancelled = false;
  workers = returned ∷ returned ∷ [];
  tasks_executed = 1;
  tasks_failed = 1;
}

events-run : run (new_pool 2 4) events ≡ some stopped
unfolding new_pool spawn has_room send_task submit_task submit_task_wait take_task finish_task
    leave_pool step run
events-run = refl

run-accounts_example :
    (total accepted events
      ≡ total succeeded events
        + total failed events
        + running stopped.workers
        + length stopped.task_queue)
    × (stopped.tasks_executed ≡ total succeeded events % word)
    × (stopped.tasks_failed ≡ total failed events % word)
    × (length stopped.task_queue ≤ 4)
run-accounts_example = run-accounts 2 4 stopped events events-run

run-order_example : all_submitted events ≡ all_taken (new_pool 2 4) events ++ stopped.task_queue
unfolding new_pool
run-order_example = run-order (new_pool 2 4) stopped events events-run

all-returned : all_returned stopped.workers ≡ true
unfolding all_returned
all-returned = refl

stop-drains_example :
    (stopped.task_queue ≡ [])
    × (total accepted events ≡ total succeeded events + total failed events)
stop-drains_example = stop-drains 2 4 stopped events events-run (omega arith) refl all-returned

new_pool-open : (new_pool {Task = ℕ} 2 4).closed ≡ false
unfolding new_pool
new_pool-open = refl

submit_answers_example :
    ((c : Case) × (p' : Pool ℕ) × (e : Option SubmitError) × (submit_task (new_pool 2 4) 7 c
        ≡ answers p' e))
    × IsRight {Task = ℕ} (new_pool 2 4) 7 (submit_task (new_pool 2 4) 7 send)
submit_answers_example = submit_answers (new_pool 2 4) 7 send new_pool-open
