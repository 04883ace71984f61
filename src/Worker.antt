-- ===== src/Worker.antt =====
-- The worker pool of pkg/worker/pool.go: a bounded queue of tasks, the workers that take tasks from
-- it, and the counters. `Task` is an interface in the source; that a task fails is the answer of its
-- `Execute`, which an event carries. The queue is buffered, its size is positive.
pub mod Counts
pub mod Drains
pub mod Submits
pub mod Order
use evm_executor.Prelude.{
  ℕ, zero, suc, ◌+◌, ◌%◌, ◌^◌, Bool, true, false, not, ◌&&◌, ◌||◌, Option, none, some, List, [],
  ◌∷◌, ◌++◌, length, get_elem?, set, ltb, if◌then◌else◌,
}

abbrev pub word : ℕ
word = 2 ^ 64

-- A worker goroutine: in its `select`, in `task.Execute`, or returned.
pub data Worker (Task : Type 0) : Type 0 where
  waiting : Worker Task
  executing : Task → Worker Task
  returned : Worker Task

-- `Pool`: `closed` is the state of the channel `taskQueue`, `cancelled` that of `ctx`.
pub record Pool (Task : Type 0) : Type 0 where
  pub worker_count : ℕ
  pub queue_size : ℕ
  pub task_queue : List Task
  pub closed : Bool
  pub cancelled : Bool
  pub workers : List (Worker Task)
  pub tasks_executed : ℕ
  pub tasks_failed : ℕ

-- The cases of a `select` of `Submit` or `SubmitWait`, of which the runtime takes one that is ready.
pub data Case : Type 0 where
  own_done pool_done send otherwise : Case

pub data SubmitError : Type 0 where
  context_error shutting_down queue_full : SubmitError

-- What a `select` comes to: its case is not ready, or it panics, or the call returns.
pub data Sent (Task : Type 0) : Type 0 where
  not_ready panics : Sent Task
  answers : Pool Task → Option SubmitError → Sent Task

-- An event of the pool's life; a worker is given by its number, and `finish` by whether `Execute`
-- returned no error.
pub data Event (Task : Type 0) : Type 0 where
  start : Event Task
  submit : Task → Case → Event Task
  submit_wait : Task → Bool → Case → Event Task
  take : ℕ → Event Task
  finish : ℕ → Bool → Event Task
  leave : ℕ → Event Task
  cancel : Event Task
  close : Event Task

-- `Stats`, but the name
pub record Stats : Type 0 where
  pub worker_count : ℕ
  pub queue_size : ℕ
  pub queue_length : ℕ
  pub tasks_executed : ℕ
  pub tasks_failed : ℕ

module _ {Task : Type 0} where
  -- `NewPool`
  unfoldable pub new_pool : ℕ → ℕ → Pool Task
  new_pool worker_count queue_size = record {
    worker_count = worker_count;
    queue_size = queue_size;
    task_queue = [];
    closed = false;
    cancelled = false;
    workers = [];
    tasks_executed = 0;
    tasks_failed = 0;
  }

  unfoldable pub spawn : ℕ → List (Worker Task)
  spawn zero = []
  spawn (suc n) = waiting ∷ spawn n

  unfoldable pub has_room : Pool Task → Bool
  has_room p = ltb (length p.task_queue) p.queue_size

  -- `p.taskQueue <- task`: on a closed channel it panics
  unfoldable pub send_task : Pool Task → Task → Sent Task
  send_task p task =
      if p.closed
      then panics
      else if has_room p
      then answers (record p { task_queue = p.task_queue ++ task ∷ [] }) none
      else not_ready

  -- `Submit`, whose `default` is taken if no other case is ready
  unfoldable pub submit_task : Pool Task → Task → Case → Sent Task
  submit_task p task own_done = not_ready
  submit_task p task pool_done = if p.cancelled then answers p (some shutting_down) else not_ready
  submit_task p task send = send_task p task
  submit_task p task otherwise =
      if p.cancelled || p.closed || has_room p then not_ready else answers p (some queue_full)

  -- `SubmitWait`, where `done` says whether the caller's context is
  unfoldable pub submit_task_wait : Pool Task → Task → Bool → Case → Sent Task
  submit_task_wait p task done own_done = if done then answers p (some context_error) else not_ready
  submit_task_wait p task done pool_done =
      if p.cancelled then answers p (some shutting_down) else not_ready
  submit_task_wait p task done send = send_task p task
  submit_task_wait p task done otherwise = not_ready

  -- A worker's `case task, ok := <-p.taskQueue`: a task, or the end of a closed, empty queue.
  unfoldable pub take_task : Pool Task → ℕ → Option (Pool Task)
  take_task p i = elim (get_elem? p.workers i) [
    | some waiting ↦ elim p.task_queue [
      | task ∷ rest ↦
          some (record p { task_queue = rest; workers = set p.workers i (executing task) })
      | [] ↦ if p.closed then some (record p { workers = set p.workers i returned }) else none
    ]
    | _ ↦ none
  ]

  -- The end of `task.Execute`, and the counter.
  unfoldable pub finish_task : Pool Task → ℕ → Bool → Option (Pool Task)
  finish_task p i succeeded = elim (get_elem? p.workers i) [
    | some (executing task) ↦
        let p' = record p { workers = set p.workers i waiting } in
        some (
          if succeeded
          then record p' { tasks_executed = (p.tasks_executed + 1) % word }
          else record p' { tasks_failed = (p.tasks_failed + 1) % word })
    | _ ↦ none
  ]

  -- A worker's `case <-p.ctx.Done()`.
  unfoldable pub leave_pool : Pool Task → ℕ → Option (Pool Task)
  leave_pool p i = elim (get_elem? p.workers i) [
    | some waiting ↦
        if p.cancelled then some (record p { workers = set p.workers i returned }) else none
    | _ ↦ none
  ]

  abbrev pub answered : Sent Task → Option (Pool Task)
  answered not_ready = none
  answered panics = none
  answered (answers p e) = some p

  -- What an event does, if it can happen without a panic. `Stop` is `close` and a wait for all the
  -- workers, `Shutdown` is `cancel` and `Stop`; a second `close` panics.
  unfoldable pub step : Pool Task → Event Task → Option (Pool Task)
  step p start = some (record p { workers = p.workers ++ spawn p.worker_count })
  step p (submit task c) = answered (submit_task p task c)
  step p (submit_wait task done c) = answered (submit_task_wait p task done c)
  step p (take i) = take_task p i
  step p (finish i succeeded) = finish_task p i succeeded
  step p (leave i) = leave_pool p i
  step p cancel = some (record p { cancelled = true })
  step p close = if p.closed then none else some (record p { closed = true })

  unfoldable pub run : Pool Task → List (Event Task) → Option (Pool Task)
  run p [] = some p
  run p (e ∷ es) = elim (step p e) [ none ↦ none | some p' ↦ run p' es ]

  -- What `p.wg.Wait()` waits for.
  unfoldable pub all_returned : List (Worker Task) → Bool
  all_returned [] = true
  all_returned (returned ∷ ws) = all_returned ws
  all_returned (_ ∷ ws) = false

  unfoldable pub stats : Pool Task → Stats
  stats p = record {
    worker_count = p.worker_count;
    queue_size = p.queue_size;
    queue_length = length p.task_queue;
    tasks_executed = p.tasks_executed;
    tasks_failed = p.tasks_failed;
  }
