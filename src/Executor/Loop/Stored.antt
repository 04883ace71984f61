-- ===== src/Executor/Loop/Stored.antt =====
-- The receipts and the progress in the store under the loop of pkg/executor/executor.go.
use evm_executor.Prelude.{
  ℕ, suc, ◌<◌, ◌≤◌, ◌≡◌, ◌≢◌, refl, ap, ◌∙◌, none, some, List, arith, leb, inl, inr, Bool-cases,
}
use evm_executor.Deps
use evm_executor.Deps.{IsDeps}
use evm_executor.Storage.Redis.{Text, ok, client_get}
use evm_executor.Storage.Blocks.{
  Progress, receipt_key, exec_progress_key, get_exec_progress, update_exec_progress,
}
use evm_executor.Storage.Blocks.Kinds.{
  render-ne-receipt, render-ne-exec_progress, receipt-ne-exec_progress,
}
use evm_executor.Storage.Blocks.Stored.{
  receipt_key-injective, update_exec_progress-apart, exec_key_apart,
}
use evm_executor.Executor.Deps.{Receipt, ChainDeps, block_deps, IsChainDeps}
use evm_executor.Executor.Process.{ProcessResult, processed, failed, process_block}
use evm_executor.Executor.Process.Store.{receipts_text}
use evm_executor.Executor.Process.Apart.{process_block-apart}
use evm_executor.Executor.Loop.{ExecutorConfig, error_of, execute_block}
use evm_executor.Executor.Loop.Rounds.{failed}

module _ {d : Deps.Deps} (c : ChainDeps d) where
  -- The store holds the text of encoded receipts for block `m`.
  abbrev pub HasReceipts : d.redis.Db → ℕ → Type 0
  HasReceipts db m =
      (rs : List Receipt) × (t : Text) × (c.encode_receipts rs ≡ some t)
      × (d.redis.get db (receipt_key m) ≡ some t)

  -- It does so for every block after `start` up to `k`.
  unfoldable pub Stored : d.redis.Db → ℕ → ℕ → Type 0
  Stored db start k = (m : ℕ) → start < m → m ≤ k → HasReceipts db m

  -- The stored progress names block `k`, and counts as many transactions.
  unfoldable pub At : d.redis.Db → ℕ → ℕ → Type 0
  At db txs k =
      (p : Progress) × (get_exec_progress (block_deps c) db ≡ ok p)
      × (p.latest_executed_block ≡ k)
      × (p.total_txs_executed ≡ txs)

  error_of-none :
      (r : ProcessResult)
      → error_of r ≡ none
      → (rs : List Receipt) × (gas : ℕ) × (r ≡ processed rs gas)
  error_of-none (processed rs gas) e = (rs, gas, refl)
  error_of-none (failed error) e = ground arith

  pub HasReceipts-same :
      (db db' : d.redis.Db) (m : ℕ)
      → d.redis.get db' (receipt_key m) ≡ d.redis.get db (receipt_key m)
      → HasReceipts db m
      → HasReceipts db' m
  HasReceipts-same db db' m e (rs, t, encoded, here) = (rs, t, encoded, e ∙ here)

  pub get_exec_progress-same :
      (db db' : d.redis.Db)
      → d.redis.get db' exec_progress_key ≡ d.redis.get db exec_progress_key
      → get_exec_progress (block_deps c) db' ≡ get_exec_progress (block_deps c) db
  unfolding get_exec_progress client_get
  get_exec_progress-same db db' e = cc (e)

  module _ (state_laws : IsDeps d) (laws : IsChainDeps c) (config : ExecutorConfig) where
    -- `executeBlock` changes neither the receipts of another block nor the progress.
    execute_block-receipts :
        (db : d.redis.Db) (n m : ℕ)
        → n ≢ m
        → HasReceipts db m
        → HasReceipts (execute_block c config db n).0 m
    unfolding execute_block
    execute_block-receipts db n m h = HasReceipts-same db (execute_block c config db n).0 m (
        process_block-apart state_laws laws n (receipt_key m)
          (λ k. render-ne-receipt d.hex_address d.hex_hash k m)
          (λ e. h (receipt_key-injective n m e)) config.caches db)

    pub execute_block-progress :
        (db : d.redis.Db) (n : ℕ)
        → get_exec_progress (block_deps c) (execute_block c config db n).0
          ≡ get_exec_progress (block_deps c) db
    unfolding execute_block
    execute_block-progress db n = get_exec_progress-same db (execute_block c config db n).0 (
        process_block-apart state_laws laws n exec_progress_key
          (λ k. render-ne-exec_progress d.hex_address d.hex_hash k) (receipt-ne-exec_progress n)
          config.caches db)

    pub execute_block-Stored :
        (db : d.redis.Db) (start k n : ℕ)
        → k < n
        → Stored db start k
        → Stored (execute_block c config db n).0 start k
    unfolding Stored
    execute_block-Stored db start k n h stored m low high =
        execute_block-receipts db n m (λ same. omega arith) (stored m low high)

    -- After a block without an error, its receipts are stored too.
    pub execute_block-extends :
        (db : d.redis.Db) (start k : ℕ)
        → (execute_block c config db (suc k)).1 ≡ none
        → Stored db start k
        → Stored (execute_block c config db (suc k)).0 start (suc k)
    unfolding Stored execute_block
    execute_block-extends db start k ran stored m low high =
        let (rs, gas, done) = error_of-none (process_block c config.caches db (suc k)).1 ran in
        elim (Bool-cases (leb m k)) [
          | inl old ↦
              execute_block-Stored db start k (suc k) (omega arith) stored m low (ground arith)
          | inr new ↦
              let same : m ≡ suc k = ground arith in
              let (t, encoded, here) = receipts_text laws config.caches db (suc k) gas rs done in
              (
                rs,
                t,
                encoded,
                ap (λ n. d.redis.get (execute_block c config db (suc k)).0 (receipt_key n)) same
                    ∙ here,
              )
        ]

    pub update_exec_progress-Stored :
        (db : d.redis.Db) (p : Progress) (start k : ℕ)
        → Stored db start k
        → Stored (update_exec_progress (block_deps c) db p).0 start k
    unfolding Stored
    update_exec_progress-Stored db p start k stored m low high =
        let (_, _, receipt, _) = exec_key_apart laws.blocks m in
        HasReceipts-same db (update_exec_progress (block_deps c) db p).0 m
          (update_exec_progress-apart laws.blocks db p (receipt_key m) receipt) (stored m low high)
