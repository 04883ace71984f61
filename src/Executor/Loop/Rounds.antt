-- ===== src/Executor/Loop/Rounds.antt =====
-- How many blocks `executeNextBlocks` of pkg/executor/executor.go executes: its loop ends.
use evm_executor.Prelude.{
  ℕ, zero, suc, ◌+◌, ◌%◌, ◌<◌, ◌≤◌, ◌≡◌, refl, ◌∙◌, true, false, Option, none, some, arith, leb,
  inl, inr, Bool-cases, Option-cases,
}
use evm_executor.Prelude.Int.{ℤ}
use evm_executor.Deps
use evm_executor.Storage.Redis.{Error, Result, ok, err}
use evm_executor.Storage.Batch.{Result-cases}
use evm_executor.Storage.Blocks.{
  Progress, get_sync_progress, get_exec_progress, update_exec_progress,
}
use evm_executor.State.Db.{word}
use evm_executor.Executor.Deps.{ChainDeps, block_deps}
use evm_executor.Executor.Process.{ProcessError}
use evm_executor.Executor.Loop.{
  LoopError, sync_error, progress_error, execute_error, update_error, ExecutorConfig, to_uint64,
  execute_block, progress_at, execute_blocks, end_block, execute_next_blocks,
}

module _ {d : Deps.Deps} (c : ChainDeps d) (config : ExecutorConfig) where
  pub end_block-bounds :
      (exec_height sync_height : ℕ)
      → (end_block c config exec_height sync_height ≤ sync_height)
        × (end_block c config exec_height sync_height ≤ exec_height + to_uint64 config.batch_size)
  unfolding end_block
  end_block-bounds exec_height sync_height =
      elim (Bool-cases (leb ((exec_height + to_uint64 config.batch_size) % word) sync_height)) [
        | inl within ↦ ground arith
        | inr beyond ↦ ground arith
      ]

module _ {d : Deps.Deps} (c : ChainDeps d) (config : ExecutorConfig) (now : ℕ → ℤ) where
  -- The store and the progress after block `n`, and the answer of `UpdateExecProgress`.
  abbrev pub updated_at : d.redis.Db → Progress → ℕ → d.redis.Db × Result (Unit {0})
  updated_at db progress n =
      update_exec_progress (block_deps c) (execute_block c config db n).0
        (progress_at progress n (now n))

  -- The rounds of the loop, by their cases.
  module _ (fuel : ℕ) (db : d.redis.Db) (progress : Progress) (n last : ℕ) where
    pub execute_blocks-over :
        last < n → execute_blocks c config now (suc fuel) db progress n last ≡ some (db, none)
    unfolding execute_blocks
    execute_blocks-over h = ground arith

    pub execute_blocks-failed :
        (e : ProcessError)
        → n ≤ last
        → (execute_block c config db n).1 ≡ some e
        → execute_blocks c config now (suc fuel) db progress n last
          ≡ some ((execute_block c config db n).0, some (execute_error n e))
    unfolding execute_blocks
    execute_blocks-failed e h ran = ground arith

    pub execute_blocks-unsaved :
        (e : Error)
        → n ≤ last
        → (execute_block c config db n).1 ≡ none
        → (updated_at db progress n).1 ≡ err e
        → execute_blocks c config now (suc fuel) db progress n last
          ≡ some ((updated_at db progress n).0, some (update_error e))
    unfolding execute_blocks
    execute_blocks-unsaved e h ran saved = ground arith

    pub execute_blocks-next :
        n ≤ last
        → (execute_block c config db n).1 ≡ none
        → (updated_at db progress n).1 ≡ ok tt
        → execute_blocks c config now (suc fuel) db progress n last
          ≡ execute_blocks c config now fuel
              (updated_at db progress n).0
              (progress_at progress n (now n))
              ((n + 1) % word)
              last
    unfolding execute_blocks
    execute_blocks-next h ran saved = ground arith

    -- A round of the loop is one of these.
    pub data Round : Type 0 where
      over :
          last < n
          → execute_blocks c config now (suc fuel) db progress n last ≡ some (db, none)
          → Round
      failed :
          (e : ProcessError)
          → n ≤ last
          → execute_blocks c config now (suc fuel) db progress n last
            ≡ some ((execute_block c config db n).0, some (execute_error n e))
          → Round
      unsaved :
          (e : Error)
          → n ≤ last
          → (execute_block c config db n).1 ≡ none
          → execute_blocks c config now (suc fuel) db progress n last
            ≡ some ((updated_at db progress n).0, some (update_error e))
          → Round
      next :
          n ≤ last
          → (execute_block c config db n).1 ≡ none
          → (updated_at db progress n).1 ≡ ok tt
          → execute_blocks c config now (suc fuel) db progress n last
            ≡ execute_blocks c config now fuel
                (updated_at db progress n).0
                (progress_at progress n (now n))
                ((n + 1) % word)
                last
          → Round

    pub Round-cases : Round
    Round-cases = elim (Bool-cases (leb n last)) [
      | inr past ↦ over (ground arith) (execute_blocks-over (ground arith))
      | inl within ↦
          let h : n ≤ last = ground arith in
          elim (Option-cases (execute_block c config db n).1) [
            | inr (e, ran) ↦ failed e h (execute_blocks-failed e h ran)
            | inl ran ↦ elim (Result-cases (updated_at db progress n).1) [
              | inl (e, saved) ↦ unsaved e h ran (execute_blocks-unsaved e h ran saved)
              | inr (_, saved) ↦ next h ran saved (execute_blocks-next h ran saved)
            ]
          ]
    ]

  -- A round more than there are blocks is enough, unless the last block has the largest number.
  pub execute_blocks-ends :
      (fuel : ℕ) (db : d.redis.Db) (progress : Progress) (n last : ℕ)
      → last + 1 < word
      → last < n + fuel
      → (r : d.redis.Db × Option LoopError) × (execute_blocks c config now
            (suc fuel)
            db
            progress
            n
            last
          ≡ some r)
  execute_blocks-ends zero db progress n last small h =
      (_, execute_blocks-over zero db progress n last (omega arith))
  execute_blocks-ends (suc fuel) db progress n last small h =
      elim (Round-cases (suc fuel) db progress n last) [
        | over _ e ↦ (_, e)
        | failed _ _ e ↦ (_, e)
        | unsaved _ _ _ e ↦ (_, e)
        | next within ran saved e ↦
            let (r, ends) =
              execute_blocks-ends fuel (updated_at db progress n).0 (progress_at progress n (now n))
                ((n + 1) % word) last small (omega arith) in
            (r, e ∙ ends)
      ]

  -- `executeNextBlocks` by the reads of the progress.
  module _ (fuel : ℕ) (db : d.redis.Db) where
    pub execute_next_blocks-unsynced :
        (e : Error)
        → get_sync_progress (block_deps c) db ≡ err e
        → execute_next_blocks c config now fuel db ≡ some (db, some (sync_error e))
    unfolding execute_next_blocks
    execute_next_blocks-unsynced e unread = rw (unread, execute_next_blocks) refl

    pub execute_next_blocks-unread :
        (e : Error) (height : ℕ)
        → get_sync_progress (block_deps c) db ≡ ok height
        → get_exec_progress (block_deps c) db ≡ err e
        → execute_next_blocks c config now fuel db ≡ some (db, some (progress_error e))
    unfolding execute_next_blocks
    execute_next_blocks-unread e height synced unread =
        rw (synced, execute_next_blocks) (rw (unread) refl)

    module _ (height : ℕ) (progress : Progress)
        (synced : get_sync_progress (block_deps c) db ≡ ok height)
        (read : get_exec_progress (block_deps c) db ≡ ok progress) where
      pub execute_next_blocks-done :
          height ≤ progress.latest_executed_block
          → execute_next_blocks c config now fuel db ≡ some (db, none)
      unfolding execute_next_blocks
      execute_next_blocks-done h =
          let done : leb height progress.latest_executed_block ≡ true = ground arith in
          rw (synced, execute_next_blocks) (rw (read) (rw (done) refl))

      pub execute_next_blocks-behind :
          progress.latest_executed_block < height
          → execute_next_blocks c config now fuel db
            ≡ execute_blocks c config now fuel db progress
                ((progress.latest_executed_block + 1) % word)
                (end_block c config progress.latest_executed_block height)
      unfolding execute_next_blocks
      execute_next_blocks-behind h =
          let behind : leb height progress.latest_executed_block ≡ false = ground arith in
          rw (synced, execute_next_blocks) (rw (read) (rw (behind) refl))

  -- executeNextBlocks ends, by a return or by the panic of NewBlock on a block, with the fuel
  -- for as many rounds as the batch size says and one more, if the height of the
  -- synchronisation is below the largest machine word; the EVM is taken to return.
  pub execute_next_blocks-ends :
      (fuel : ℕ) (db : d.redis.Db)
      → ((height : ℕ) → get_sync_progress (block_deps c) db ≡ ok height → height + 1 < word)
      → to_uint64 config.batch_size ≤ fuel
      → (r : d.redis.Db × Option LoopError) × (execute_next_blocks c config now (suc fuel) db
          ≡ some r)
  execute_next_blocks-ends fuel db small enough =
      elim (Result-cases (get_sync_progress (block_deps c) db)) [
        | inl (e, unsynced) ↦ (_, execute_next_blocks-unsynced (suc fuel) db e unsynced)
        | inr (height, synced) ↦ elim (Result-cases (get_exec_progress (block_deps c) db)) [
          | inl (e, unread) ↦ (_, execute_next_blocks-unread (suc fuel) db e height synced unread)
          | inr (p, read) ↦
              let exec_height = p.latest_executed_block in
              elim (Bool-cases (leb height exec_height)) [
                | inl done ↦
                    (_, execute_next_blocks-done (suc fuel) db height p synced read (ground arith))
                | inr behind ↦
                    let (low, short) = end_block-bounds c config exec_height height in
                    let h = small height synced in
                    let later : exec_height < height = ground arith in
                    let (r, ends) =
                      execute_blocks-ends fuel db p ((exec_height + 1) % word)
                        (end_block c config exec_height height) (omega arith) (omega arith) in
                    (r, execute_next_blocks-behind (suc fuel) db height p synced read later ∙ ends)
              ]
        ]
      ]
