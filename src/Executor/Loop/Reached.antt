-- ===== src/Executor/Loop/Reached.antt =====
-- The progress and the receipts that `executeNextBlocks` of pkg/executor/executor.go leaves.
use mathlib.Core.Path.{subst}
use mathlib.Core.Option.{some-injective}
use evm_executor.Prelude.{
  ℕ, zero, suc, ◌+◌, ◌%◌, ◌<◌, ◌≤◌, ◌≡◌, refl, sym, ap, ◌∙◌, Option, none, some, arith,
}
use evm_executor.Prelude.Int.{ℤ}
use evm_executor.Deps
use evm_executor.Deps.{IsDeps}
use evm_executor.Storage.Redis.{ok}
use evm_executor.Storage.Blocks.{Progress, get_sync_progress, get_exec_progress}
use evm_executor.Storage.Blocks.Stored.{get_exec_progress-update_exec_progress}
use evm_executor.State.Db.{word}
use evm_executor.Executor.Deps.{ChainDeps, block_deps, IsChainDeps}
use evm_executor.Executor.Process.{failed}
use evm_executor.Executor.Loop.{
  LoopError, execute_error, update_error, ExecutorConfig, to_uint64, execute_block, progress_at,
  execute_blocks, end_block, execute_next_blocks,
}
use evm_executor.Executor.Loop.Rounds.{
  updated_at, Round-cases, over, failed, unsaved, next, end_block-bounds,
  execute_next_blocks-behind,
}
use evm_executor.Executor.Loop.Stored.{
  Stored, At, execute_block-progress, execute_block-Stored, execute_block-extends,
  update_exec_progress-Stored,
}

module _ {d : Deps.Deps} (c : ChainDeps d) where
  -- The answers of the loop: without an error it has come to the last block; a block that could not
  -- be executed is the one after the stored progress; after an error of the update, the receipts are
  -- stored up to a block of the batch.
  unfoldable pub Reached : ℕ → ℕ → ℕ → d.redis.Db × Option LoopError → Type 0
  Reached start txs last (db, none) = At c db txs last × Stored c db start last
  Reached start txs last (db, some (execute_error n e)) =
      (k : ℕ) × (n ≡ suc k) × (start ≤ k) × (k < last) × At c db txs k × Stored c db start k
  Reached start txs last (db, some (update_error e)) =
      (k : ℕ) × (start < k) × (k ≤ last) × Stored c db start k
  Reached start txs last (db, some _) = ⊥

  module _ (state_laws : IsDeps d) (laws : IsChainDeps c) (config : ExecutorConfig) where
    module _ (now : ℕ → ℤ) (start txs last : ℕ) (small : last + 1 < word) where
      -- The loop from the block after the stored progress on.
      execute_blocks-Reached :
          (fuel : ℕ) (db : d.redis.Db) (progress : Progress) (r : d.redis.Db × Option LoopError)
          (k : ℕ)
          → k ≤ last
          → start ≤ k
          → get_exec_progress (block_deps c) db ≡ ok progress
          → progress.latest_executed_block ≡ k
          → progress.total_txs_executed ≡ txs
          → Stored c db start k
          → execute_blocks c config now fuel db progress (suc k) last ≡ some r
          → Reached start txs last r
      unfolding execute_blocks At Reached
      execute_blocks-Reached zero db progress r k h h' read here same stored e = ground arith
      execute_blocks-Reached (suc fuel) db progress r k h h' read here same stored e =
          let db' : d.redis.Db = (execute_block c config db (suc k)).0 in
          let db'' : d.redis.Db = (updated_at c config now db progress (suc k)).0 in
          let progress' : Progress = progress_at progress (suc k) (now (suc k)) in
          let read' : get_exec_progress (block_deps c) db' ≡ ok progress =
            execute_block-progress c state_laws laws config db (suc k) ∙ read in
          let answer : (q : d.redis.Db × Option LoopError)
              → execute_blocks c config now (suc fuel) db progress (suc k) last ≡ some q
              → Reached start txs last q
              → Reached start txs last r =
            λ q stop reached.
              subst (λ (x : d.redis.Db × Option LoopError). Reached start txs last x) {x = q}
                {y = r} (some-injective _ _ (sym stop ∙ e)) reached in
          elim (Round-cases c config now fuel db progress (suc k) last) [
            | over past stop ↦
                let at_end : k ≡ last = omega arith in
                answer (db, none) stop
                  ((progress, read, here ∙ at_end, same), subst (Stored c db start) at_end stored)
            | failed error within stop ↦
                answer (db', some (execute_error (suc k) error)) stop
                  (
                    k,
                    refl,
                    h',
                    within,
                    (progress, read', here, same),
                    execute_block-Stored c state_laws laws config db start k (suc k) (omega arith)
                        stored,
                  )
            | unsaved error within ran stop ↦
                answer (db'', some (update_error error)) stop
                  (
                    suc k,
                    omega arith,
                    within,
                    update_exec_progress-Stored c state_laws laws config db' progress' start (suc k)
                        (execute_block-extends c state_laws laws config db start k ran stored),
                  )
            | next within ran saved go ↦
                let (now_read, _, _, _) =
                  get_exec_progress-update_exec_progress laws.blocks db' progress' 0 saved in
                let rest =
                  execute_blocks-Reached fuel db'' progress' r (suc k) within (omega arith) now_read
                    refl same
                    (update_exec_progress-Stored c state_laws laws config db' progress' start
                      (suc k)
                      (execute_block-extends c state_laws laws config db start k ran stored)) in
                let following : (suc k + 1) % word ≡ suc (suc k) = omega arith in
                rest (
                  ap (λ n. execute_blocks c config now fuel db'' progress' n last) (sym following)
                  ∙ sym go
                  ∙ e)
          ]

    -- The same from a store with receipts for every block after `start` up to the progress.
    pub execute_next_blocks-extends :
        (now : ℕ → ℤ) (fuel height start : ℕ) (db : d.redis.Db) (progress : Progress)
        (r : d.redis.Db × Option LoopError)
        → start ≤ progress.latest_executed_block
        → Stored c db start progress.latest_executed_block
        → get_sync_progress (block_deps c) db ≡ ok height
        → get_exec_progress (block_deps c) db ≡ ok progress
        → height + 1 < word
        → progress.latest_executed_block < height
        → progress.latest_executed_block + to_uint64 config.batch_size < word
        → execute_next_blocks c config now fuel db ≡ some r
        → Reached start progress.total_txs_executed
            (end_block c config progress.latest_executed_block height)
            r
    unfolding end_block
    execute_next_blocks-extends now fuel height start db progress r h stored synced read small
          behind whole e =
        let exec_height : ℕ = progress.latest_executed_block in
        let last : ℕ = end_block c config exec_height height in
        let (low, _) = end_block-bounds c config exec_height height in
        let not_past : exec_height ≤ last = ground arith in
        let following : (exec_height + 1) % word ≡ suc exec_height = omega arith in
        execute_blocks-Reached now start progress.total_txs_executed last (omega arith) fuel db
          progress r exec_height not_past h read refl refl stored
          (ap (λ n. execute_blocks c config now fuel db progress n last) (sym following)
            ∙ sym
                (execute_next_blocks-behind c config now fuel db height progress synced read behind)
            ∙ e)

    -- When a batch that does not overflow is to be executed and executeNextBlocks ends within
    -- the fuel, then either there is no error, the stored progress names the last block of
    -- the batch and the receipts of each of its blocks are stored; or a block failed, with an
    -- error or by the panic of NewBlock, that comes right after the stored progress, and the
    -- receipts are stored up to the progress; or the update of the progress failed, with
    -- receipts stored for at least one block of the batch. In the first two cases the count
    -- of transactions in the stored progress is as before. That receipts are stored means
    -- that their key holds the text of encoded receipts. The height of the synchronisation is
    -- taken to be below the largest machine word.
    pub execute_next_blocks-Reached :
        (now : ℕ → ℤ) (fuel height : ℕ) (db : d.redis.Db) (progress : Progress)
        (r : d.redis.Db × Option LoopError)
        → get_sync_progress (block_deps c) db ≡ ok height
        → get_exec_progress (block_deps c) db ≡ ok progress
        → height + 1 < word
        → progress.latest_executed_block < height
        → progress.latest_executed_block + to_uint64 config.batch_size < word
        → execute_next_blocks c config now fuel db ≡ some r
        → Reached progress.latest_executed_block progress.total_txs_executed
            (end_block c config progress.latest_executed_block height)
            r
    unfolding Stored
    execute_next_blocks-Reached now fuel height db progress r synced read small behind whole e =
        execute_next_blocks-extends now fuel height progress.latest_executed_block db progress r
          (omega arith) (λ m after upto. ground arith) synced read small behind whole e
