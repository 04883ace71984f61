-- ===== src/Tests/Lives.antt =====
-- The theorems on an executor's life at a concrete run: a pool of two workers, and a stop while a tick
-- executes blocks.
use evm_executor.Prelude.{ℕ, ◌≡◌, refl, Option, none, some, List, [], ◌∷◌, map}
use evm_executor.Worker
use evm_executor.Worker.{new_pool, take_task, finish_task, leave_pool, spawn, all_returned}
use evm_executor.Executor.Life.{
  Life, Round, Event, start, tick, stop, queue_closed, finished, round, new_life, in_pool,
  start_executor, stop_executor, tick_loop, step, run,
}
use evm_executor.Executor.Life.Stopped.{stop-returns}

abbrev events : List Event
events = start ∷ tick 0 ∷ stop ∷ stop ∷ stop ∷ []

life_of : Option (Life ℕ) → Life ℕ
life_of none = new_life (new_pool 0 0)
life_of (some l) = l

abbrev stopping : Life ℕ
stopping = life_of (run (new_life (new_pool 2 3)) events)

ran : run (new_life (new_pool 2 3)) events ≡ some stopping
unfolding life_of run step new_life in_pool start_executor stop_executor tick_loop Worker.step spawn
    new_pool
ran = refl

closed : stopping.phase ≡ queue_closed
unfolding life_of run step new_life in_pool start_executor stop_executor tick_loop Worker.step spawn
    new_pool
closed = refl

stop-returns_example :
    (rs : List Round) × (l' l'' : Life ℕ) × (run stopping (map round rs) ≡ some l')
    × (stop_executor l' ≡ some l'')
    × (l''.phase ≡ finished)
    × (l''.loops ≡ stopping.loops)
stop-returns_example = stop-returns 2 3 events stopping ran closed
