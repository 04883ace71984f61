-- ===== src/Executor/Loop/Panics.antt =====
-- Blocks with transactions under executeNextBlocks of pkg/executor/executor.go: GetBlock of
-- pkg/storage/block.go calls go-ethereum's NewBlock without a hasher.
use evm_executor.Prelude.{
  ℕ, suc, ◌+◌, ◌%◌, ◌<◌, ◌≤◌, ◌≡◌, refl, ap, ◌∙◌, none, some, List, [], ◌∷◌, arith,
}
use evm_executor.Prelude.Int.{ℤ}
use evm_executor.Deps
use evm_executor.Storage.Redis.{Text, ok, err, panicked, client_get}
use evm_executor.Storage.Blocks.{
  Progress, txs_key, get_header, get_block, get_sync_progress, get_exec_progress,
}
use evm_executor.State.Db.{word}
use evm_executor.Executor.Deps.{ChainDeps, block_deps}
use evm_executor.Executor.Process.{CacheConfig, block_error, ProcessResult, failed, process_block}
use evm_executor.Executor.Loop.{
  execute_error, ExecutorConfig, to_uint64, execute_block, execute_blocks, error_of, end_block,
  execute_next_blocks,
}
use evm_executor.Executor.Loop.Rounds.{execute_blocks-failed, execute_next_blocks-behind}

-- What go-ethereum's NewBlock does with a hasher that is nil: to derive the root of the transactions it
-- resets the hasher, unless there are none.
pub record IsNewBlock {d : Deps.Deps} (c : ChainDeps d) : Type 0 where
  pub with_transactions :
      (header : c.Header) (tx : c.Transaction) (txs : List c.Transaction)
      → c.new_block header (tx ∷ txs) ≡ none
  pub without :
      (header : c.Header)
      → (block : c.Block) × (c.new_block header [] ≡ some block) × (c.block_transactions block ≡ [])

module _ {d : Deps.Deps} (c : ChainDeps d) where
  -- A block with a transaction is stored.
  pub record HasTransaction (db : d.redis.Db) (n : ℕ) : Type 0 where
    pub header : c.Header
    pub text : Text
    pub first : c.Transaction
    pub others : List c.Transaction
    pub header_stored : get_header (block_deps c) db n ≡ ok header
    pub text_stored : client_get d.redis db (txs_key n) ≡ ok text
    pub decodes : c.decode_transactions text ≡ some (first ∷ others)

module _ {d : Deps.Deps} (c : ChainDeps d) (laws : IsNewBlock c) where
  get_block-panics :
      (db : d.redis.Db) (n : ℕ)
      → HasTransaction c db n
      → get_block (block_deps c) db n ≡ err panicked
  unfolding get_block
  get_block-panics db n h =
      rw (h.header_stored, get_block)
        (rw (h.text_stored, get_block)
          (rw (h.decodes, get_block) (rw (laws.with_transactions h.header h.first h.others) refl)))

  process_block-panics :
      (caches : CacheConfig) (db : d.redis.Db) (n : ℕ)
      → HasTransaction c db n
      → process_block c caches db n ≡ (db, failed (block_error panicked))
  unfolding process_block
  process_block-panics caches db n h = rw (get_block-panics db n h, process_block) refl

  -- The defect, as NewBlock of go-ethereum panics without a hasher on a block that has
  -- transactions: if the block after the stored progress, which the synchronisation has passed,
  -- has a transaction, the batch size is positive and the batch does not overflow, then
  -- executeNextBlocks panics at this block and leaves the store as it was.
  pub execute_next_blocks-panics :
      (config : ExecutorConfig) (now : ℕ → ℤ) (fuel height : ℕ) (db : d.redis.Db)
      (progress : Progress)
      → get_sync_progress (block_deps c) db ≡ ok height
      → get_exec_progress (block_deps c) db ≡ ok progress
      → progress.latest_executed_block < height
      → 0 < to_uint64 config.batch_size
      → progress.latest_executed_block + to_uint64 config.batch_size < word
      → HasTransaction c db (progress.latest_executed_block + 1)
      → execute_next_blocks c config now (suc fuel) db
        ≡ some
            (db, some (execute_error (progress.latest_executed_block + 1) (block_error panicked)))
  unfolding execute_block end_block
  execute_next_blocks-panics config now fuel height db progress synced read behind positive whole
        h =
      let n : ℕ = progress.latest_executed_block + 1 in
      let last : ℕ = end_block c config progress.latest_executed_block height in
      let ran = process_block-panics config.caches db n h in
      let following : (progress.latest_executed_block + 1) % word ≡ n = omega arith in
      let within : n ≤ last = ground arith in
      execute_next_blocks-behind c config now (suc fuel) db height progress synced read behind
      ∙ ap (λ m. execute_blocks c config now (suc fuel) db progress m last) following
      ∙ execute_blocks-failed c config now fuel db progress n last (block_error panicked) within
          (ap (λ (r : d.redis.Db × ProcessResult). error_of r.1) ran)
      ∙ ap
          (λ (r : d.redis.Db × ProcessResult).
            some (r.0, some (execute_error n (block_error panicked))))
          ran
