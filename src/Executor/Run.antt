-- ===== src/Executor/Run.antt =====
-- The life of the store under `run` of pkg/executor/executor.go: ticks, whose errors are only logged,
-- and in between the writes of the program that synchronises the blocks.
use mathlib.Core.Path.{subst}
use mathlib.Core.Option.{some-injective}
use evm_executor.Prelude.{
  ℕ, ◌+◌, ◌<◌, ◌≤◌, ◌≡◌, sym, ◌∙◌, Option, none, some, arith, leb, inl, inr, Bool-cases,
}
use evm_executor.Prelude.Int.{ℤ}
use evm_executor.Deps
use evm_executor.Deps.{IsDeps}
use evm_executor.Storage.Redis.{ok}
use evm_executor.Storage.Batch.{Result-cases}
use evm_executor.Storage.Blocks.{
  Progress, receipt_key, exec_progress_key, get_sync_progress, get_exec_progress,
}
use evm_executor.State.Db.{word}
use evm_executor.Executor.Deps.{ChainDeps, block_deps, IsChainDeps}
use evm_executor.Executor.Loop.{
  LoopError, sync_error, progress_error, execute_error, update_error, ExecutorConfig, to_uint64,
  end_block, execute_next_blocks,
}
use evm_executor.Executor.Loop.Rounds.{execute_next_blocks-unsynced, execute_next_blocks-done}
use evm_executor.Executor.Loop.Stored.{Stored, At, HasReceipts-same, get_exec_progress-same}
use evm_executor.Executor.Loop.Reached.{
  Reached, execute_next_blocks-extends, execute_next_blocks-Reached,
}

module _ {d : Deps.Deps} (c : ChainDeps d) (config : ExecutorConfig) where
  -- The stores that `run` comes to from `db`, also when the program is started again after it ended, as
  -- by a panic in a tick. Another program may write between two ticks, but not
  -- what the executor writes: the receipts and the progress of the execution.
  pub data Runs (db : d.redis.Db) : d.redis.Db → Type 0 where
    begun : Runs db db
    ticked :
        {db' : d.redis.Db} {r : d.redis.Db × Option LoopError}
        → Runs db db'
        → (now : ℕ → ℤ) → (fuel : ℕ) → execute_next_blocks c config now fuel db' ≡ some r
        → Runs db r.0
    synchronised :
        {db' db'' : d.redis.Db}
        → Runs db db'
        → ((n : ℕ) → d.redis.get db'' (receipt_key n) ≡ d.redis.get db' (receipt_key n))
        → d.redis.get db'' exec_progress_key ≡ d.redis.get db' exec_progress_key
        → Runs db db''

  abbrev pub IsSaved : Option LoopError → Type 0
  IsSaved (some (update_error _)) = ⊥
  IsSaved _ = Unit {0}

  -- The numbers of a tick's blocks are machine words.
  abbrev pub IsBounded : d.redis.Db → Type 0
  IsBounded db =
      (height : ℕ) (p : Progress)
      → get_sync_progress (block_deps c) db ≡ ok height
      → get_exec_progress (block_deps c) db ≡ ok p
      → (height + 1 < word) × (p.latest_executed_block + to_uint64 config.batch_size < word)

  -- No tick failed to store its progress, and the numbers of blocks did not overflow.
  abbrev pub IsQuiet : {db db' : d.redis.Db} → Runs db db' → Type 0
  IsQuiet begun = Unit {0}
  IsQuiet (ticked {db' = db'} {r = r} before now fuel e) =
      IsQuiet before × IsSaved r.1 × IsBounded db'
  IsQuiet (synchronised before receipts progress) = IsQuiet before

  -- The stored progress names block `k` or a later one, and receipts are stored up to it.
  abbrev pub Advanced : d.redis.Db → ℕ → ℕ → ℕ → Type 0
  Advanced db txs start k = (l : ℕ) × (k ≤ l) × At c db txs l × Stored c db start l

  At-unique : (db : d.redis.Db) (txs k l : ℕ) → At c db txs k → At c db txs l → k ≡ l
  unfolding At
  At-unique db txs k l (p, read, here, _) (q, read', here', _) = ground arith

  -- What a tick reaches is no step back.
  Reached-Advanced :
      (txs start k last : ℕ) (r : d.redis.Db × Option LoopError)
      → k ≤ last
      → IsSaved r.1
      → Reached c start txs last r
      → Reached c k txs last r
      → Advanced r.0 txs start k
  unfolding Reached
  Reached-Advanced txs start k last (db, none) h saved (here, stored) _ = (last, h, here, stored)
  Reached-Advanced txs start k last (db, some (execute_error n e)) h saved
        (l, _, _, _, here, stored) (m, _, low, _, here', _) =
      let same : m ≡ l = At-unique db txs m l here' here in (l, ground arith, here, stored)
  Reached-Advanced txs start k last (db, some (update_error e)) h saved _ _ = absurd saved
  Reached-Advanced txs start k last (db, some (sync_error e)) h saved r _ = absurd r
  Reached-Advanced txs start k last (db, some (progress_error e)) h saved r _ = absurd r

  module _ (state_laws : IsDeps d) (laws : IsChainDeps c) where
    behind-Advanced :
        (now : ℕ → ℤ) (fuel height start : ℕ) (db : d.redis.Db) (p : Progress)
        (r : d.redis.Db × Option LoopError)
        → IsBounded db
        → IsSaved r.1
        → start ≤ p.latest_executed_block
        → Stored c db start p.latest_executed_block
        → get_sync_progress (block_deps c) db ≡ ok height
        → get_exec_progress (block_deps c) db ≡ ok p
        → p.latest_executed_block < height
        → execute_next_blocks c config now fuel db ≡ some r
        → Advanced r.0 p.total_txs_executed start p.latest_executed_block
    unfolding end_block
    behind-Advanced now fuel height start db p r bounded saved h stored synced read behind e =
        let exec_height : ℕ = p.latest_executed_block in
        let (small, whole) = bounded height p synced read in
        let last : ℕ = end_block c config exec_height height in
        let not_past : exec_height ≤ last = ground arith in
        Reached-Advanced p.total_txs_executed start exec_height last r not_past saved
          (execute_next_blocks-extends c state_laws laws config now fuel height start db p r h
            stored synced read small behind whole e)
          (execute_next_blocks-Reached c state_laws laws config now fuel height db p r synced read
            small behind whole e)

    tick-Advanced :
        (now : ℕ → ℤ) (fuel txs start k : ℕ) (db : d.redis.Db) (r : d.redis.Db × Option LoopError)
        → IsBounded db
        → IsSaved r.1
        → start ≤ k
        → At c db txs k
        → Stored c db start k
        → execute_next_blocks c config now fuel db ≡ some r
        → Advanced r.0 txs start k
    unfolding At
    tick-Advanced now fuel txs start k db r bounded saved h (p, read, here, same) stored e =
        elim (Result-cases (get_sync_progress (block_deps c) db)) [
          | inl (error, unsynced) ↦
              let stay =
                some-injective _ _
                  (sym (execute_next_blocks-unsynced c config now fuel db error unsynced) ∙ e) in
              subst (λ (q : d.redis.Db × Option LoopError). Advanced q.0 txs start k) stay
                (k, omega arith, (p, read, here, same), stored)
          | inr (height, synced) ↦ elim (Bool-cases (leb height p.latest_executed_block)) [
            | inl caught_up ↦
                let stay = some-injective _ _ (
                  sym (
                    execute_next_blocks-done c config now fuel db height p synced read
                      (ground arith))
                  ∙ e) in
                subst (λ (q : d.redis.Db × Option LoopError). Advanced q.0 txs start k) stay
                  (k, omega arith, (p, read, here, same), stored)
            | inr behind ↦
                subst (λ t. Advanced r.0 t start k) same
                  (subst (λ n. Advanced r.0 p.total_txs_executed start n) here
                    (behind-Advanced now fuel height start db p r bounded saved (omega arith)
                      (subst (Stored c db start) (sym here) stored) synced read (ground arith) e))
          ]
        ]

    -- Along every run of the executor's loop, with writes of the synchronising program
    -- between its ticks and starts after a panic, whose ticks stored their progress without
    -- an error and whose block numbers did not overflow: the stored progress never goes back,
    -- its count of transactions stays as it was, and the key of the receipts holds the text
    -- of encoded receipts for every block that it has passed since the beginning.
    pub Runs-Advanced :
        {db db' : d.redis.Db} (txs k : ℕ) (run : Runs db db')
        → IsQuiet run
        → At c db txs k
        → Advanced db' txs k k
    unfolding Stored At
    Runs-Advanced {db} txs k begun quiet here = (k, omega arith, here, λ m after upto. ground arith)
    Runs-Advanced {db} txs k (ticked {db' = db'} {r = r} before now fuel e) (quiet, saved, bounded)
          here =
        let (l, low, at_l, stored) = Runs-Advanced txs k before quiet here in
        let (m, low', at_m, stored') =
          tick-Advanced now fuel txs k l db' r bounded saved low at_l stored e in
        (m, omega arith, at_m, stored')
    Runs-Advanced {db} txs k (synchronised {db' = db'} {db'' = db''} before receipts progress) quiet
          here =
        let (l, low, (p, read, at_l, same), stored) = Runs-Advanced txs k before quiet here in
        (
          l,
          low,
          (p, get_exec_progress-same c db' db'' progress ∙ read, at_l, same),
          λ m after upto. HasReceipts-same c db' db'' m (receipts m) (stored m after upto),
        )
