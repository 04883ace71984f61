-- ===== src/Tests/Configs.antt =====
-- The theorems on the configuration at concrete inputs. The stand-in for viper keeps the defaults and
-- the values of the file as functions; every file sets the batch size to 20.
use evm_executor.Prelude.{
  false, ℕ, ◌≡◌, refl, sym, ap, Bool, true, Option, none, some, [], arith, Bool-cases, inl, inr,
  if◌then◌else◌,
}
use evm_executor.Prelude.Int.{ℤ, pos}
use mathlib.Core.Option.{some-injective}
use evm_executor.Storage.Redis.{Text}
use evm_executor.Storage.Key.{codes}
use evm_executor.Chain.{same_text, same_text_iff}
use evm_executor.Config.{
  PikaConfig, Value, text, number, flag, Env, Viper, loaded, loaded_or, defaults, set_defaults,
  read_file, load,
}
use evm_executor.Config.Fields.{Casts, has_dot, read_config}
use evm_executor.Config.Layers.{
  env_name, first_of, text_of, default_in, IsViper, IsPlain, IsUnshadowed, AllOf, AllOf-each,
  parent_keys, load-layers,
}
use evm_executor.Config.Variables.{load-env}
use evm_executor.Executor.Loop.{LoopError, execute_next_blocks}
use evm_executor.Executor.New.{Executor, new_executor, created, reads_of, new_executor-load}
use evm_executor.Tests.World.{Store}
use evm_executor.Tests.Chain.{chain_world}
use evm_executor.Tests.Executor.{synced_store, now, height-small}
use evm_executor.Config.Defaults.{IsCasts, default_config, load-defaults}

abbrev as_text : Value → Option Text
as_text (text t) = some t
as_text _ = none

abbrev as_int : Value → Option ℤ
as_int (number n) = some n
as_int _ = none

abbrev as_uint64 : Value → Option ℕ
as_uint64 (number (pos n)) = some n
as_uint64 _ = none

abbrev as_bool : Value → Option Bool
as_bool (flag b) = some b
as_bool _ = none

abbrev as_duration : Value → Option ℤ
as_duration (text t) = if same_text t (codes "30s") then some (pos 30000000000) else none
as_duration _ = none

abbrev casts : Casts
casts = record {
  to_text = as_text;
  to_int = as_int;
  to_uint64 = as_uint64;
  to_bool = as_bool;
  to_duration = as_duration;
}

abbrev Settings : Type 0
Settings = Text → Option Value

abbrev file : Settings
file k = if same_text k (codes "execution.batch_size") then some (number (pos 20)) else none

abbrev viper : Viper
viper = record {
  V = Settings × Settings;
  new = (λ _. none, λ _. none);
  set_default = λ v j x. (λ k. if same_text j k then some x else v.0 k, v.1);
  set_config_file = λ v _. v;
  read_in_config = λ v. some (v.0, file);
  set_env_prefix = λ v _. v;
  automatic_env = λ v. v;
  unmarshal = λ env v.
      read_config casts (λ k. first_of (text_of (env (env_name k))) (first_of (v.1 k) (v.0 k)));
}

viper-IsViper : IsViper viper
viper-IsViper = record {
  casts = casts;
  default_of = λ v k. v.0 k;
  file_of = λ v k. v.1 k;
  new_empty = λ k. refl;
  new_unread = λ k. refl;
  default_set = λ v j x k. refl;
  default_unread = λ v j x k. refl;
  read_keeps = λ v w path e k. ap (λ (u : Settings × Settings). u.0 k) (sym (some-injective _ _ e));
  immediate = λ v k. false;
  new_plain = λ k. refl;
  default_plain = λ v j x k. refl;
  unmarshals = λ env v unshadowed plain. refl;
}

casts-IsCasts : IsCasts casts
unfolding same_text
casts-IsCasts = record {
  texts = λ t. refl;
  ints = λ n. refl;
  uints = λ n. refl;
  bools = λ b. refl;
  half_minute = refl;
}

abbrev unset : Env
unset _ = none

abbrev documented : Env
documented name =
    if same_text name (codes "EVM_EXECUTOR_STORAGE_PIKA_ADDR")
    then some (codes "pika:9221")
    else none

abbrev with_file : Settings × Settings
with_file = ((set_defaults viper viper.new).0, file)

file-read : read_file viper (set_defaults viper viper.new) (codes "config.yaml") ≡ some with_file
unfolding read_file
file-read = refl

plain : (w : Settings × Settings) → IsPlain viper-IsViper w
unfolding viper-IsViper
plain w = AllOf-each (λ k. false ≡ false) parent_keys (λ k. refl)

load-layers_example :
    load viper unset (codes "config.yaml")
    ≡ loaded_or viper (
        read_config casts (λ k.
          first_of (text_of (unset (env_name k))) (first_of (file k) (default_in defaults k))))
unfolding viper-IsViper same_text
load-layers_example =
    load-layers viper-IsViper unset (codes "config.yaml") with_file file-read
      (AllOf-each (λ k. text_of (unset (env_name k)) ≡ none) parent_keys (λ k. refl))
      (plain with_file)

dotless : (name : Text) → has_dot name ≡ true → documented name ≡ unset name
dotless name dot = elim (Bool-cases (same_text name (codes "EVM_EXECUTOR_STORAGE_PIKA_ADDR"))) [
  | inl found ↦
      let (equal, _) = same_text_iff name (codes "EVM_EXECUTOR_STORAGE_PIKA_ADDR") in
      ground (arith, ap has_dot (equal found))
  | inr other ↦ ground arith
]

documented-IsUnshadowed : IsUnshadowed documented
unfolding AllOf parent_keys env_name same_text
documented-IsUnshadowed =
    (refl, (refl, (refl, (refl, (refl, (refl, (refl, (refl, (refl, (refl, (refl, tt)))))))))))

load-env_example :
    load viper documented (codes "config.yaml") ≡ load viper unset (codes "config.yaml")
load-env_example =
    load-env viper-IsViper documented unset (codes "config.yaml") documented-IsUnshadowed
      (AllOf-each (λ k. text_of (unset (env_name k)) ≡ none) parent_keys (λ k. refl))
      (λ w read. plain w) dotless

abbrev pings : PikaConfig → Bool
pings pika = same_text pika.addr (codes "127.0.0.1:9221")

answers : pings default_config.storage.pika ≡ true
unfolding same_text
answers = refl

defaults-loaded : load viper unset [] ≡ loaded default_config
unfolding viper-IsViper
defaults-loaded = load-defaults viper-IsViper casts-IsCasts unset (λ name. refl)

new_executor-load_example :
    (e : Executor ℕ) × (new_executor pings default_config ≡ created e)
    × (e.chain_config.chain_id ≡ 56)
    × (r : Store × Option LoopError) × (execute_next_blocks chain_world
          (reads_of e)
          now
          11
          synced_store
        ≡ some r)
unfolding viper-IsViper
new_executor-load_example =
    new_executor-load viper-IsViper casts-IsCasts chain_world ℕ unset default_config pings now
      synced_store (λ name. refl) defaults-loaded answers height-small
