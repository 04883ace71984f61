-- ===== src/Executor/Loop.antt =====
-- The blocks that pkg/executor/executor.go executes at a tick of its loop, and the progress that it
-- stores; the readings of the clock are the parameter `now`.
pub mod Rounds
pub mod Stored
pub mod Reached
pub mod Stalls
pub mod Panics
use evm_executor.Prelude.{
  ℕ, zero, suc, ◌+◌, ◌-◌, ◌%◌, Bool, true, false, Option, none, some, leb, if◌then◌else◌,
}
use evm_executor.Prelude.Int.{ℤ, pos, negsuc}
use evm_executor.Deps
use evm_executor.Storage.Redis.{Error, Result, ok, err}
use evm_executor.Storage.Blocks.{
  Progress, get_sync_progress, get_exec_progress, update_exec_progress,
}
use evm_executor.State.Db.{word}
use evm_executor.Executor.Deps.{ChainDeps, block_deps}
use evm_executor.Executor.Process.{
  CacheConfig, ProcessError, ProcessResult, processed, failed, process_block,
}

-- The errors of `executeNextBlocks`, by the step that failed.
pub data LoopError : Type 0 where
  sync_error : Error → LoopError
  progress_error : Error → LoopError
  execute_error : ℕ → ProcessError → LoopError
  update_error : Error → LoopError

-- What `executeNextBlocks` reads of an `Executor`: the batch size of its configuration, an `int`, and
-- the cache sizes of its processor.
pub record ExecutorConfig : Type 0 where
  pub batch_size : ℤ
  pub caches : CacheConfig

-- The conversion `uint64(x)` of an `int`.
unfoldable pub to_uint64 : ℤ → ℕ
to_uint64 (pos n) = n % word
to_uint64 (negsuc n) = word - 1 - n % word

-- The error that `ProcessBlock` returns, if there is one.
abbrev pub error_of : ProcessResult → Option ProcessError
error_of (processed _ _) = none
error_of (failed e) = some e

-- The progress after block `n`, executed at a time.
abbrev pub progress_at : Progress → ℕ → ℤ → Progress
progress_at progress n time = record progress {
  latest_executed_block = n;
  last_execution_time = time;
}

module _ {d : Deps.Deps} (c : ChainDeps d) (config : ExecutorConfig) where
  -- `executeBlock`: the store, and the error if there is one
  unfoldable pub execute_block : d.redis.Db → ℕ → d.redis.Db × Option ProcessError
  execute_block db n = let (db', r) = process_block c config.caches db n in (db', error_of r)

  -- The last block of a batch.
  unfoldable pub end_block : ℕ → ℕ → ℕ
  end_block exec_height sync_height =
      let last = (exec_height + to_uint64 config.batch_size) % word in
      if leb last sync_height then last else sync_height

  module _ (now : ℕ → ℤ) where
    -- The loop of `executeNextBlocks` from block `n` up to block `last`: the store, and the error if
    -- there is one; `none` if the fuel does not suffice.
    unfoldable pub execute_blocks :
        ℕ → d.redis.Db → Progress → ℕ → ℕ → Option (d.redis.Db × Option LoopError)
    execute_blocks zero db progress n last = none
    execute_blocks (suc fuel) db progress n last = elim (leb n last) [
      | false ↦ some (db, none)
      | true ↦
          let (db', error) = execute_block db n in
          elim error [
            | some e ↦ some (db', some (execute_error n e))
            | none ↦
                let progress' = progress_at progress n (now n) in
                let (db'', updated) = update_exec_progress (block_deps c) db' progress' in
                elim updated [
                  | err e ↦ some (db'', some (update_error e))
                  | ok _ ↦ execute_blocks fuel db'' progress' ((n + 1) % word) last
                ]
          ]
    ]

    -- `executeNextBlocks`
    unfoldable pub execute_next_blocks : ℕ → d.redis.Db → Option (d.redis.Db × Option LoopError)
    execute_next_blocks fuel db = elim (get_sync_progress (block_deps c) db) [
      | err e ↦ some (db, some (sync_error e))
      | ok sync_height ↦ elim (get_exec_progress (block_deps c) db) [
        | err e ↦ some (db, some (progress_error e))
        | ok progress ↦
            let exec_height = progress.latest_executed_block in
            elim (leb sync_height exec_height) [
              | true ↦ some (db, none)
              | false ↦
                  execute_blocks fuel db progress ((exec_height + 1) % word)
                    (end_block exec_height sync_height)
            ]
      ]
    ]
