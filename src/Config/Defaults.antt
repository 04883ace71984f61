-- ===== src/Config/Defaults.antt =====
-- The configuration that pkg/config/config.go makes of its defaults alone.
use evm_executor.Prelude.{ℕ, ◌≡◌, refl, ap, ◌∙◌, Bool, true, false, Option, none, some, [], arith}
use evm_executor.Prelude.Int.{ℤ, pos}
use evm_executor.Storage.Redis.{Text}
use evm_executor.Storage.Key.{codes}
use evm_executor.Chain.{same_text}
use evm_executor.Config.{
  Config, Value, text, number, flag, Env, Viper, loaded, loaded_or, defaults, set_defaults,
  read_file, load,
}
use evm_executor.Config.Fields.{
  Casts, chain_of, pika_of, execution_of, evm_of, pool_of, metrics_of, logging_of, read_config,
}
use evm_executor.Config.Layers.{
  default_in, env_name, text_of, first_of, IsViper, load-layers, set_all_unread, set_all_plain,
  AllOf-each, parent_keys,
}

-- A value of the type of its field is decoded as it is, and the duration of 30s as its nanoseconds.
pub record IsCasts (c : Casts) : Type 0 where
  pub texts : (t : Text) → c.to_text (text t) ≡ some t
  pub ints : (n : ℤ) → c.to_int (number n) ≡ some n
  pub uints : (n : ℕ) → c.to_uint64 (number (pos n)) ≡ some n
  pub bools : (b : Bool) → c.to_bool (flag b) ≡ some b
  pub half_minute : c.to_duration (text (codes "30s")) ≡ some (pos 30000000000)

-- The values of `setDefaults`, as the fields of the configuration.
abbrev pub default_config : Config
default_config = record {
  chain = record { name = codes "bsc"; network_id = 56 };
  storage = record {
    pika = record {
      addr = codes "127.0.0.1:9221";
      password = [];
      db = pos 0;
      max_connections = pos 200;
      pipeline_size = pos 1000;
    };
  };
  execution = record {
    concurrent_workers = pos 4;
    batch_size = pos 10;
    state_window_size = pos 1024;
    state_cache_size = pos 10000;
    storage_cache_size = pos 50000;
    code_cache_size = pos 1000;
  };
  evm = record { enable_debug = false; vm_timeout = pos 30000000000; gas_limit = 30000000 };
  workers = record {
    tx_executor = record { worker_count = pos 4; queue_size = pos 100 };
    state_committer = record { worker_count = pos 2; queue_size = pos 50 };
    receipt_writer = record { worker_count = pos 4; queue_size = pos 100 };
  };
  metrics = record { enabled = true; listen_addr = codes "0.0.0.0:9091" };
  logging = record { level = codes "info"; format = codes "json" };
}

module _ {c : Casts} (h : IsCasts c) where
  chain_of-read :
      (t : Text) (n : ℕ)
      → chain_of c (some (text t)) (some (number (pos n)))
        ≡ some (record { name = t; network_id = n })
  unfolding chain_of
  chain_of-read t n = ground (arith, h.texts t, h.uints n)

  pika_of-read :
      (s t : Text) (x y z : ℤ)
      → pika_of c
          (some (text s))
          (some (text t))
          (some (number x))
          (some (number y))
          (some (number z))
        ≡ some (record { addr = s; password = t; db = x; max_connections = y; pipeline_size = z })
  unfolding pika_of
  pika_of-read s t x y z = ground (arith, h.texts s, h.texts t, h.ints x, h.ints y, h.ints z)

  execution_of-read :
      (u v w x y z : ℤ)
      → execution_of c
          (some (number u))
          (some (number v))
          (some (number w))
          (some (number x))
          (some (number y))
          (some (number z))
        ≡ some (record {
          concurrent_workers = u;
          batch_size = v;
          state_window_size = w;
          state_cache_size = x;
          storage_cache_size = y;
          code_cache_size = z;
        })
  unfolding execution_of
  execution_of-read u v w x y z =
      ground (arith, h.ints u, h.ints v, h.ints w, h.ints x, h.ints y, h.ints z)

  evm_of-read :
      (b : Bool) (n : ℕ)
      → evm_of c (some (flag b)) (some (text (codes "30s"))) (some (number (pos n)))
        ≡ some (record { enable_debug = b; vm_timeout = pos 30000000000; gas_limit = n })
  unfolding evm_of
  evm_of-read b n = ground (arith, h.bools b, h.half_minute, h.uints n)

  pool_of-read :
      (x y : ℤ)
      → pool_of c (some (number x)) (some (number y))
        ≡ some (record { worker_count = x; queue_size = y })
  unfolding pool_of
  pool_of-read x y = ground (arith, h.ints x, h.ints y)

  metrics_of-read :
      (b : Bool) (t : Text)
      → metrics_of c (some (flag b)) (some (text t))
        ≡ some (record { enabled = b; listen_addr = t })
  unfolding metrics_of
  metrics_of-read b t = ground (arith, h.bools b, h.texts t)

  logging_of-read :
      (s t : Text)
      → logging_of c (some (text s)) (some (text t)) ≡ some (record { level = s; format = t })
  unfolding logging_of
  logging_of-read s t = ground (arith, h.texts s, h.texts t)

  decode_defaults : read_config c (default_in defaults) ≡ some default_config
  unfolding read_config default_in defaults same_text
  decode_defaults = rw (chain_of-read (codes "bsc") 56) (
      rw (pika_of-read (codes "127.0.0.1:9221") [] (pos 0) (pos 200) (pos 1000)) (
        rw (execution_of-read (pos 4) (pos 10) (pos 1024) (pos 10000) (pos 50000) (pos 1000)) (
          rw (evm_of-read false 30000000) (
            rw (pool_of-read (pos 4) (pos 100)) (
              rw (pool_of-read (pos 2) (pos 50)) (
                rw (metrics_of-read true (codes "0.0.0.0:9091"))
                  (rw (logging_of-read (codes "info") (codes "json")) refl)))))))

module _ {viper : Viper} (laws : IsViper viper) (casts : IsCasts laws.casts) where
  -- Without a file, and with no variable set, `Load` returns the configuration in which every field
  -- has the value that `setDefaults` means for it.
  pub load-defaults :
      (env : Env) → ((name : Text) → env name ≡ none) → load viper env [] ≡ loaded default_config
  unfolding read_file set_defaults
  load-defaults env unset =
      let w : viper.V = set_defaults viper viper.new in
      let value : (k : Text)
          → first_of (text_of (env (env_name k)))
              (first_of (laws.file_of w k) (default_in defaults k))
            ≡ default_in defaults k =
        λ k.
          ap
            (λ (t : Option Text).
              first_of (text_of t) (first_of (laws.file_of w k) (default_in defaults k)))
            (unset (env_name k))
          ∙ ap (λ (o : Option Value). first_of o (default_in defaults k))
              (set_all_unread laws defaults viper.new k ∙ laws.new_unread k) in
      load-layers laws env [] w refl
        (AllOf-each (λ k. text_of (env (env_name k)) ≡ none) parent_keys
          (λ k. ap text_of (unset (env_name k))))
        (AllOf-each (λ k. laws.immediate w k ≡ false) parent_keys
          (λ k. set_all_plain laws defaults viper.new k ∙ laws.new_plain k))
      ∙ ap (λ (g : Text → Option Value). loaded_or viper (read_config laws.casts g))
          (λ i k. value k i)
      ∙ ap (loaded_or viper) (decode_defaults casts)
