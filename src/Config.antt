-- ===== src/Config.antt =====
-- pkg/config/config.go: the configuration, its defaults and how it is loaded by the third-party
-- library viper, which is a parameter. An environment gives the variables that are set and not empty.
pub mod Fields
pub mod Layers
pub mod Variables
pub mod Defaults
use evm_executor.Prelude.{
  ℕ, Bool, true, false, Option, none, some, List, [], ◌∷◌, ◌++◌, length, ◌==◌, if◌then◌else◌,
}
use evm_executor.Prelude.Int.{ℤ, pos}
use evm_executor.Storage.Redis.{Text}
use evm_executor.Storage.Key.{codes}

pub record ChainConfig : Type 0 where
  pub name : Text
  pub network_id : ℕ

pub record PikaConfig : Type 0 where
  pub addr : Text
  pub password : Text
  pub db : ℤ
  pub max_connections : ℤ
  pub pipeline_size : ℤ

pub record ExecutionConfig : Type 0 where
  pub concurrent_workers : ℤ
  pub batch_size : ℤ
  pub state_window_size : ℤ
  pub state_cache_size : ℤ
  pub storage_cache_size : ℤ
  pub code_cache_size : ℤ

-- `vm_timeout` is a `time.Duration`, in nanoseconds.
pub record EvmConfig : Type 0 where
  pub enable_debug : Bool
  pub vm_timeout : ℤ
  pub gas_limit : ℕ

pub record WorkerPoolConfig : Type 0 where
  pub worker_count : ℤ
  pub queue_size : ℤ

pub record WorkersConfig : Type 0 where
  pub tx_executor : WorkerPoolConfig
  pub state_committer : WorkerPoolConfig
  pub receipt_writer : WorkerPoolConfig

pub record MetricsConfig : Type 0 where
  pub enabled : Bool
  pub listen_addr : Text

pub record LoggingConfig : Type 0 where
  pub level : Text
  pub format : Text

pub record StorageConfig : Type 0 where
  pub pika : PikaConfig

pub record Config : Type 0 where
  pub chain : ChainConfig
  pub storage : StorageConfig
  pub execution : ExecutionConfig
  pub evm : EvmConfig
  pub workers : WorkersConfig
  pub metrics : MetricsConfig
  pub logging : LoggingConfig

-- A value of a setting.
pub data Value : Type 0 where
  text : Text → Value
  number : ℤ → Value
  flag : Bool → Value

abbrev pub Env : Type 0
Env = Text → Option Text

-- The methods of viper that the program calls.
pub record Viper : Type 1 where
  pub V : Type 0
  pub new : V
  pub set_default : V → Text → Value → V
  pub set_config_file : V → Text → V
  pub read_in_config : V → Option V
  pub set_env_prefix : V → Text → V
  pub automatic_env : V → V
  pub unmarshal : Env → V → Option Config

pub data LoadError : Type 0 where
  read_error unmarshal_failed : LoadError

pub data Loaded : Type 0 where
  loaded : Config → Loaded
  load_failed : LoadError → Loaded

-- The calls of `setDefaults`, in their order.
unfoldable pub defaults : List (Text × Value)
defaults =
    (codes "chain.name", text (codes "bsc"))
    ∷ (codes "chain.network_id", number (pos 56))
    ∷ (codes "storage.pika.addr", text (codes "127.0.0.1:9221"))
    ∷ (codes "storage.pika.password", text [])
    ∷ (codes "storage.pika.db", number (pos 0))
    ∷ (codes "storage.pika.max_connections", number (pos 200))
    ∷ (codes "storage.pika.pipeline_size", number (pos 1000))
    ∷ (codes "execution.concurrent_workers", number (pos 4))
    ∷ (codes "execution.batch_size", number (pos 10))
    ∷ (codes "execution.state_window_size", number (pos 1024))
    ∷ (codes "execution.state_cache_size", number (pos 10000))
    ∷ (codes "execution.storage_cache_size", number (pos 50000))
    ∷ (codes "execution.code_cache_size", number (pos 1000))
    ∷ (codes "evm.enable_debug", flag false)
    ∷ (codes "evm.vm_timeout", text (codes "30s"))
    ∷ (codes "evm.gas_limit", number (pos 30000000))
    ∷ (codes "worker_pools.tx_executor.worker_count", number (pos 4))
    ∷ (codes "worker_pools.tx_executor.queue_size", number (pos 100))
    ∷ (codes "worker_pools.state_committer.worker_count", number (pos 2))
    ∷ (codes "worker_pools.state_committer.queue_size", number (pos 50))
    ∷ (codes "worker_pools.receipt_writer.worker_count", number (pos 4))
    ∷ (codes "worker_pools.receipt_writer.queue_size", number (pos 100))
    ∷ (codes "metrics.enabled", flag true)
    ∷ (codes "metrics.listen_addr", text (codes "0.0.0.0:9091"))
    ∷ (codes "logging.level", text (codes "info"))
    ∷ (codes "logging.format", text (codes "json"))
    ∷ []

module _ (viper : Viper) where
  unfoldable pub set_all : viper.V → List (Text × Value) → viper.V
  set_all v [] = v
  set_all v ((key, value) ∷ rest) = set_all (viper.set_default v key value) rest

  -- `setDefaults`
  unfoldable pub set_defaults : viper.V → viper.V
  set_defaults v = set_all v defaults

  -- The part of `Load` that reads the file, if there is one.
  unfoldable pub read_file : viper.V → Text → Option viper.V
  read_file v [] = some v
  read_file v (c ∷ path) = viper.read_in_config (viper.set_config_file v (c ∷ path))

  abbrev pub loaded_or : Option Config → Loaded
  loaded_or none = load_failed unmarshal_failed
  loaded_or (some config) = loaded config

  -- `Load`
  unfoldable pub load : Env → Text → Loaded
  load env config_path = elim (read_file (set_defaults viper.new) config_path) [
    | none ↦ load_failed read_error
    | some v ↦
        loaded_or (
          viper.unmarshal env (viper.automatic_env (viper.set_env_prefix v (codes "EVM_EXECUTOR"))))
  ]
