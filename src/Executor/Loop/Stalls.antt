-- ===== src/Executor/Loop/Stalls.antt =====
-- The batch sizes for which `executeNextBlocks` of pkg/executor/executor.go executes nothing.
use evm_executor.Prelude.{ℕ, suc, ◌+◌, ◌%◌, ◌<◌, ◌≤◌, ◌≡◌, ◌∙◌, none, some, arith}
use evm_executor.Prelude.Int.{ℤ, pos, negsuc}
use evm_executor.Deps
use evm_executor.Deps.{IsDeps}
use evm_executor.Storage.Redis.{ok}
use evm_executor.Storage.Blocks.{Progress, get_sync_progress, get_exec_progress}
use evm_executor.State.Db.{word}
use evm_executor.Executor.Deps.{ChainDeps, block_deps}
use evm_executor.Executor.Loop.{ExecutorConfig, to_uint64, end_block, execute_next_blocks}
use evm_executor.Executor.Loop.Rounds.{execute_blocks-over, execute_next_blocks-behind}

-- A batch size that is zero, or negative with an amount of at most the stored progress.
abbrev pub IsIdle : ℕ → ℤ → Type 0
IsIdle exec_height (pos n) = n ≡ 0
IsIdle exec_height (negsuc n) = n < exec_height

past_end :
    (exec_height : ℕ) (b : ℤ)
    → exec_height < word
    → IsIdle exec_height b
    → (exec_height + to_uint64 b) % word ≤ exec_height
unfolding to_uint64
past_end exec_height (pos n) small none_left = omega arith
past_end exec_height (negsuc n) small back = omega arith

module _ {d : Deps.Deps} (c : ChainDeps d) (config : ExecutorConfig) where
  -- If the batch size is zero, or negative with an amount that is at most the number in the stored
  -- progress, `executeNextBlocks` executes nothing and reports no error, however far the
  -- synchronisation is ahead (its height below the largest machine word).
  pub execute_next_blocks-stalls :
      (now : ℕ → ℤ) (fuel height : ℕ) (db : d.redis.Db) (progress : Progress)
      → get_sync_progress (block_deps c) db ≡ ok height
      → get_exec_progress (block_deps c) db ≡ ok progress
      → height + 1 < word
      → progress.latest_executed_block < height
      → IsIdle progress.latest_executed_block config.batch_size
      → execute_next_blocks c config now (suc fuel) db ≡ some (db, none)
  unfolding end_block
  execute_next_blocks-stalls now fuel height db progress synced read small behind stall =
      let exec_height : ℕ = progress.latest_executed_block in
      let last : ℕ = end_block c config exec_height height in
      let past = past_end exec_height config.batch_size (omega arith) stall in
      let over : last < (exec_height + 1) % word = ground arith in
      execute_next_blocks-behind c config now (suc fuel) db height progress synced read behind
      ∙ execute_blocks-over c config now fuel db progress ((exec_height + 1) % word) last over
