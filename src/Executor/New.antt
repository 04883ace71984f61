-- ===== src/Executor/New.antt =====
-- NewExecutor of pkg/executor/executor.go, with NewProcessor of pkg/executor/processor.go and
-- NewPikaClient of pkg/storage/pika.go: whether Pika answers the first ping is the parameter `ping`.
use evm_executor.Prelude.{
  ℕ, ◌+◌, ◌<◌, ◌≡◌, refl, sym, ap, ◌∙◌, Bool, true, Option, none, some, [], if◌then◌else◌, arith,
}
use evm_executor.Prelude.Int.{ℤ, pos, negsuc, pos_part}
use evm_executor.Deps
use evm_executor.Storage.Redis.{Text, ok}
use evm_executor.Storage.Blocks.{get_sync_progress}
use evm_executor.State.Db.{word}
use evm_executor.Worker.{Pool, new_pool}
use evm_executor.Chain
use evm_executor.Chain.{ChainAdapter, bsc_adapter, same_text, new_chain_adapter, get_chain_config}
use evm_executor.Config.{Config, PikaConfig, Env, Viper, loaded, load}
use evm_executor.Config.Layers.{IsViper}
use evm_executor.Config.Defaults.{IsCasts, default_config, load-defaults}
use evm_executor.Executor.Deps.{ChainDeps, block_deps}
use evm_executor.Executor.Process.{CacheConfig}
use evm_executor.Executor.Loop.{LoopError, ExecutorConfig, to_uint64, execute_next_blocks}
use evm_executor.Executor.Loop.Rounds.{execute_next_blocks-ends}

loaded-injective : (x y : Config) → loaded x ≡ loaded y → x ≡ y
loaded-injective x y h = ground arith

-- The errors of `NewExecutor`.
pub data NewError : Type 0 where
  pika_error chain_error : NewError

-- What `NewExecutor` puts together, but the storage layers, which hold the client alone.
pub record Executor (Task : Type 0) : Type 0 where
  pub config : Config
  pub caches : CacheConfig
  pub chain_config : Chain.ChainConfig
  pub worker_pool : Pool Task
  pub chain_adapter : ChainAdapter

-- `panics` is `make` of a channel with a negative size.
pub data Created (Task : Type 0) : Type 0 where
  created : Executor Task → Created Task
  refused : NewError → Created Task
  panics : Created Task

-- `CacheConfig` of a configuration: a size that is not positive is refused by the cache, as 0 is.
unfoldable pub cache_config : Config → CacheConfig
cache_config cfg = record {
  state_cache_size = pos_part cfg.execution.state_cache_size;
  storage_cache_size = pos_part cfg.execution.storage_cache_size;
  code_cache_size = pos_part cfg.execution.code_cache_size;
}

module _ {Task : Type 0} where
  -- `worker.NewPool`; fewer than no workers are none
  unfoldable pub pool_for : ℤ → ℤ → Option (Pool Task)
  pool_for worker_count (pos queue_size) = some (new_pool (pos_part worker_count) queue_size)
  pool_for worker_count (negsuc _) = none

  unfoldable pub new_executor : (PikaConfig → Bool) → Config → Created Task
  new_executor ping cfg =
      if ping cfg.storage.pika
      then elim (new_chain_adapter cfg.chain.name) [
        | none ↦ refused chain_error
        | some adapter ↦
            let workers = cfg.workers.tx_executor in
            elim (pool_for workers.worker_count workers.queue_size) [
              | none ↦ panics
              | some pool ↦ created (record {
                config = cfg;
                caches = cache_config cfg;
                chain_config = get_chain_config adapter;
                worker_pool = pool;
                chain_adapter = adapter;
              })
            ]
      ]
      else refused pika_error

  -- What `executeNextBlocks` reads of an executor.
  abbrev pub reads_of : Executor Task → ExecutorConfig
  reads_of e = record { batch_size = e.config.execution.batch_size; caches = e.caches }

  -- The executor of the default configuration.
  default_executor : Executor Task
  default_executor = record {
    config = default_config;
    caches = cache_config default_config;
    chain_config = get_chain_config bsc_adapter;
    worker_pool = new_pool 4 100;
    chain_adapter = bsc_adapter;
  }

  default_executor-created :
      (ping : PikaConfig → Bool)
      → ping default_config.storage.pika ≡ true
      → new_executor ping default_config ≡ created default_executor
  unfolding new_executor pool_for new_chain_adapter same_text default_executor
  default_executor-created ping answered = rw (answered) refl

module _ {viper : Viper} (laws : IsViper viper) (casts : IsCasts laws.casts) {d : Deps.Deps}
    (c : ChainDeps d) (Task : Type 0) where
  -- If no variable is set and Pika answers at the address that `Load` makes of the defaults,
  -- then `NewExecutor` makes of this configuration an executor for the chain with the
  -- configured number, and its executeNextBlocks ends, by a return or by the panic of NewBlock
  -- on a block, within 11 rounds, over any store whose height of the synchronisation is below
  -- the largest machine word; the EVM is taken to return.
  pub new_executor-load :
      (env : Env) (cfg : Config) (ping : PikaConfig → Bool) (now : ℕ → ℤ) (db : d.redis.Db)
      → ((name : Text) → env name ≡ none)
      → load viper env [] ≡ loaded cfg
      → ping cfg.storage.pika ≡ true
      → ((height : ℕ) → get_sync_progress (block_deps c) db ≡ ok height → height + 1 < word)
      → (e : Executor Task) × (new_executor ping cfg ≡ created e)
        × (e.chain_config.chain_id ≡ cfg.chain.network_id)
        × (r : d.redis.Db × Option LoopError) × (execute_next_blocks c (reads_of e) now 11 db
            ≡ some r)
  unfolding default_executor get_chain_config to_uint64
  new_executor-load env cfg ping now db unset made answered small =
      let same : default_config ≡ cfg =
        loaded-injective default_config cfg (sym (load-defaults laws casts env unset) ∙ made) in
      let pinged : ping default_config.storage.pika ≡ true =
        ap (λ (x : Config). ping x.storage.pika) same ∙ answered in
      let (r, ends) =
        execute_next_blocks-ends c (reads_of {Task = Task} default_executor) now 10 db small
          (omega arith) in
      (
        default_executor,
        ap (new_executor ping) (sym same) ∙ default_executor-created ping pinged,
        ap (λ (x : Config). x.chain.network_id) same,
        r,
        ends,
      )
