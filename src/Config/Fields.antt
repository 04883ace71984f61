-- ===== src/Config/Fields.antt =====
-- The fields of the types of pkg/config/config.go, decoded from the values of their settings.
use evm_executor.Prelude.{
  ℕ, ◌≡◌, ap, ◌||◌, Bool, true, false, Option, none, some, [], ◌∷◌, ◌==◌, if◌then◌else◌, arith,
  Bool-cases, inl, inr,
}
use evm_executor.Prelude.Int.{ℤ, pos}
use evm_executor.Storage.Redis.{Text}
use evm_executor.Storage.Key.{codes}
use evm_executor.Config.{
  ChainConfig, PikaConfig, ExecutionConfig, EvmConfig, WorkerPoolConfig, WorkersConfig,
  MetricsConfig, LoggingConfig, Config, Value,
}

-- How viper decodes a value for a field of a type.
pub record Casts : Type 0 where
  pub to_text : Value → Option Text
  pub to_int : Value → Option ℤ
  pub to_uint64 : Value → Option ℕ
  pub to_bool : Value → Option Bool
  pub to_duration : Value → Option ℤ

-- A field without a value keeps its zero value.
abbrev pub field : {A : Type 0} → (Value → Option A) → A → Option Value → Option A
field cast zero none = some zero
field cast zero (some x) = cast x

infixl 5 ◌>>=◌
abbrev pub ◌>>=◌ : {A B : Type 0} → Option A → (A → Option B) → Option B
none >>= f = none
some a >>= f = f a

-- Whether a text has a dot.
abbrev pub has_dot : Text → Bool
has_dot [] = false
has_dot (a ∷ s) = a == 46 || has_dot s

module _ (c : Casts) where
  unfoldable pub chain_of : Option Value → Option Value → Option ChainConfig
  chain_of v w = do
    name ← field c.to_text [] v
    network_id ← field c.to_uint64 0 w
    some (record { name = name; network_id = network_id })

  unfoldable pub pika_of :
      Option Value → Option Value → Option Value → Option Value → Option Value → Option PikaConfig
  pika_of v w x y z = do
    addr ← field c.to_text [] v
    password ← field c.to_text [] w
    db ← field c.to_int (pos 0) x
    max_connections ← field c.to_int (pos 0) y
    pipeline_size ← field c.to_int (pos 0) z
    some (record {
      addr = addr;
      password = password;
      db = db;
      max_connections = max_connections;
      pipeline_size = pipeline_size;
    })

  unfoldable pub execution_of :
      Option Value
      → Option Value
      → Option Value
      → Option Value
      → Option Value
      → Option Value
      → Option ExecutionConfig
  execution_of u v w x y z = do
    concurrent_workers ← field c.to_int (pos 0) u
    batch_size ← field c.to_int (pos 0) v
    state_window_size ← field c.to_int (pos 0) w
    state_cache_size ← field c.to_int (pos 0) x
    storage_cache_size ← field c.to_int (pos 0) y
    code_cache_size ← field c.to_int (pos 0) z
    some (record {
      concurrent_workers = concurrent_workers;
      batch_size = batch_size;
      state_window_size = state_window_size;
      state_cache_size = state_cache_size;
      storage_cache_size = storage_cache_size;
      code_cache_size = code_cache_size;
    })

  unfoldable pub evm_of : Option Value → Option Value → Option Value → Option EvmConfig
  evm_of v w x = do
    enable_debug ← field c.to_bool false v
    vm_timeout ← field c.to_duration (pos 0) w
    gas_limit ← field c.to_uint64 0 x
    some (record { enable_debug = enable_debug; vm_timeout = vm_timeout; gas_limit = gas_limit })

  unfoldable pub pool_of : Option Value → Option Value → Option WorkerPoolConfig
  pool_of v w = do
    worker_count ← field c.to_int (pos 0) v
    queue_size ← field c.to_int (pos 0) w
    some (record { worker_count = worker_count; queue_size = queue_size })

  unfoldable pub metrics_of : Option Value → Option Value → Option MetricsConfig
  metrics_of v w = do
    enabled ← field c.to_bool false v
    listen_addr ← field c.to_text [] w
    some (record { enabled = enabled; listen_addr = listen_addr })

  unfoldable pub logging_of : Option Value → Option Value → Option LoggingConfig
  logging_of v w = do
    level ← field c.to_text [] v
    format ← field c.to_text [] w
    some (record { level = level; format = format })

  abbrev pub workers_of :
      Option WorkerPoolConfig
      → Option WorkerPoolConfig
      → Option WorkerPoolConfig
      → Option WorkersConfig
  workers_of u v w = do
    tx_executor ← u
    state_committer ← v
    receipt_writer ← w
    some (record {
      tx_executor = tx_executor;
      state_committer = state_committer;
      receipt_writer = receipt_writer;
    })

  abbrev pub config_of :
      Option ChainConfig
      → Option PikaConfig
      → Option ExecutionConfig
      → Option EvmConfig
      → Option WorkersConfig
      → Option MetricsConfig
      → Option LoggingConfig
      → Option Config
  config_of t u v w x y z = do
    chain ← t
    pika ← u
    execution ← v
    evm ← w
    workers ← x
    metrics ← y
    logging ← z
    some (record {
      chain = chain;
      storage = record { pika = pika };
      execution = execution;
      evm = evm;
      workers = workers;
      metrics = metrics;
      logging = logging;
    })

  -- The configuration by the tags of its fields, from the values of the settings.
  unfoldable pub read_config : (Text → Option Value) → Option Config
  read_config g =
      config_of (chain_of (g (codes "chain.name")) (g (codes "chain.network_id")))
        (pika_of (g (codes "storage.pika.addr")) (g (codes "storage.pika.password"))
          (g (codes "storage.pika.db")) (g (codes "storage.pika.max_connections"))
          (g (codes "storage.pika.pipeline_size")))
        (execution_of (g (codes "execution.concurrent_workers")) (g (codes "execution.batch_size"))
          (g (codes "execution.state_window_size")) (g (codes "execution.state_cache_size"))
          (g (codes "execution.storage_cache_size")) (g (codes "execution.code_cache_size")))
        (evm_of (g (codes "evm.enable_debug")) (g (codes "evm.vm_timeout"))
          (g (codes "evm.gas_limit")))
        (workers_of
          (pool_of (g (codes "worker_pools.tx_executor.worker_count"))
            (g (codes "worker_pools.tx_executor.queue_size")))
          (pool_of (g (codes "worker_pools.state_committer.worker_count"))
            (g (codes "worker_pools.state_committer.queue_size")))
          (pool_of (g (codes "worker_pools.receipt_writer.worker_count"))
            (g (codes "worker_pools.receipt_writer.queue_size"))))
        (metrics_of (g (codes "metrics.enabled")) (g (codes "metrics.listen_addr")))
        (logging_of (g (codes "logging.level")) (g (codes "logging.format")))

  abbrev dotted : (Text → Option Value) → Text → Option Value
  dotted g k = if has_dot k then g k else none

  dotted-same :
      (g h : Text → Option Value)
      → ((k : Text) → has_dot k ≡ true → g k ≡ h k)
      → (k : Text) → dotted g k ≡ dotted h k
  dotted-same g h same k = elim (Bool-cases (has_dot k)) [
    | inl dot ↦ ground (arith, same k dot)
    | inr plain ↦ ground arith
  ]

  -- The settings that the fields stand for all have a dot in their keys.
  pub read_config-same :
      (g h : Text → Option Value)
      → ((k : Text) → has_dot k ≡ true → g k ≡ h k)
      → read_config g ≡ read_config h
  unfolding read_config
  read_config-same g h same =
      ap read_config {x = dotted g} {y = dotted h} (λ i k. dotted-same g h same k i)
