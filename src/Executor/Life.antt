-- ===== src/Executor/Life.antt =====
-- Start, Stop and the loop of run of pkg/executor/executor.go, as the events of an executor's life in
-- any interleaving: the goroutines that Start makes, the steps of one call of Stop, and the rounds of
-- the workers of its pool. A tick is only begun and ended here: executeNextBlocks, which works on the
-- store, calls no method of the pool.
pub mod Idle
pub mod Stopped
use evm_executor.Prelude.{
  ℕ, Bool, true, false, ◌||◌, Option, none, some, List, [], ◌∷◌, ◌++◌, get_elem?, set,
  if◌then◌else◌,
}
use evm_executor.Worker
use evm_executor.Worker.{Pool, new_pool, all_returned}

-- A goroutine of `run`: in its `select`, in `executeNextBlocks`, or returned.
pub data Loop : Type 0 where
  selecting ticking returned : Loop

-- How far the call of `Stop` is: `finished` is after `pikaClient.Close`.
pub data Phase : Type 0 where
  not_called signalled pool_cancelled queue_closed finished : Phase

-- Whether `<-e.stopChan` is ready.
abbrev pub stop_received : Phase → Bool
stop_received not_called = false
stop_received _ = true

-- The executor while it runs; `context_done` is the state of the context that `Start` was given.
pub record Life (Task : Type 0) : Type 0 where
  pub worker_pool : Pool Task
  pub loops : List Loop
  pub context_done : Bool
  pub phase : Phase

-- A round of a worker, given by its number; `finish` says whether the task returned no error.
pub data Round : Type 0 where
  take : ℕ → Round
  finish : ℕ → Bool → Round
  leave : ℕ → Round

pub data Event : Type 0 where
  start : Event
  cancel : Event
  tick : ℕ → Event
  tick_end : ℕ → Event
  return : ℕ → Event
  stop : Event
  round : Round → Event

module _ {Task : Type 0} where
  abbrev pub event_of : Round → Worker.Event Task
  event_of (take i) = Worker.Event.take i
  event_of (finish i succeeded) = Worker.Event.finish i succeeded
  event_of (leave i) = Worker.Event.leave i

  -- What `NewExecutor` leaves, of the pool that it makes.
  unfoldable pub new_life : Pool Task → Life Task
  new_life pool = record {
    worker_pool = pool;
    loops = [];
    context_done = false;
    phase = not_called;
  }

  -- The same life with an event of its pool.
  unfoldable pub in_pool : Life Task → Worker.Event Task → Option (Life Task)
  in_pool l e = elim (Worker.step l.worker_pool e) [
    | none ↦ none
    | some pool ↦ some (record l { worker_pool = pool })
  ]

  abbrev pub at_phase : Phase → Option (Life Task) → Option (Life Task)
  at_phase phase none = none
  at_phase phase (some l) = some (record l { phase = phase })

  -- `Start`: the workers, and a goroutine that runs `run`
  unfoldable pub start_executor : Life Task → Option (Life Task)
  start_executor l = in_pool (record l { loops = l.loops ++ selecting ∷ [] }) Worker.Event.start

  -- The next step of `Stop`: `close(e.stopChan)`, the cancellation of `Shutdown`, the `close` of the
  -- pool's `Stop`, and `pikaClient.Close` once all the workers have returned.
  unfoldable pub stop_executor : Life Task → Option (Life Task)
  stop_executor l = elim l.phase [
    | not_called ↦ some (record l { phase = signalled })
    | signalled ↦ at_phase pool_cancelled (in_pool l Worker.Event.cancel)
    | pool_cancelled ↦ at_phase queue_closed (in_pool l Worker.Event.close)
    | queue_closed ↦
        if all_returned l.worker_pool.workers then some (record l { phase = finished }) else none
    | finished ↦ none
  ]

  -- The cases of the `select` of `run`; of those that are ready the runtime takes any.
  unfoldable pub tick_loop : Life Task → ℕ → Option (Life Task)
  tick_loop l i = elim (get_elem? l.loops i) [
    | some selecting ↦ some (record l { loops = set l.loops i ticking })
    | _ ↦ none
  ]

  unfoldable pub return_loop : Life Task → ℕ → Option (Life Task)
  return_loop l i = elim (get_elem? l.loops i) [
    | some selecting ↦
        if l.context_done || stop_received l.phase
        then some (record l { loops = set l.loops i returned })
        else none
    | _ ↦ none
  ]

  -- The return of `executeNextBlocks` in `run`.
  unfoldable pub end_tick : Life Task → ℕ → Option (Life Task)
  end_tick l i = elim (get_elem? l.loops i) [
    | some ticking ↦ some (record l { loops = set l.loops i selecting })
    | _ ↦ none
  ]

  -- What an event does, if it can happen without a panic.
  unfoldable pub step : Life Task → Event → Option (Life Task)
  step l start = start_executor l
  step l cancel = some (record l { context_done = true })
  step l (tick i) = tick_loop l i
  step l (tick_end i) = end_tick l i
  step l (return i) = return_loop l i
  step l stop = stop_executor l
  step l (round r) = in_pool l (event_of r)

  unfoldable pub run : Life Task → List Event → Option (Life Task)
  run l [] = some l
  run l (e ∷ es) = elim (step l e) [ none ↦ none | some l' ↦ run l' es ]
