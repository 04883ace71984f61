-- ===== src/Config/Layers.antt =====
-- Where the values of pkg/config/config.go come from.
use mathlib.Core.Option.{some-injective}
use evm_executor.Prelude.{
  ℕ, ◌-◌, ◌≡◌, refl, sym, ap, ◌∙◌, ◌&&◌, Bool, false, Option, none, some, List, [], ◌∷◌, ◌++◌, map,
  leb, if◌then◌else◌, arith,
}
use evm_executor.Storage.Redis.{Text}
use evm_executor.Storage.Key.{codes}
use evm_executor.Chain.{same_text}
use evm_executor.Config.{
  Value, text, Env, Viper, defaults, set_all, set_defaults, read_file, loaded_or, load,
}
use evm_executor.Config.Fields.{Casts, read_config}

-- What `EVM_EXECUTOR` and a key make the name of a variable: in capitals, with a low line between.
abbrev pub upper : ℕ → ℕ
upper c = if leb 97 c && leb c 122 then c - 32 else c

unfoldable pub env_name : Text → Text
env_name key = map upper (codes "EVM_EXECUTOR" ++ codes "_" ++ key)

abbrev pub first_of : Option Value → Option Value → Option Value
first_of (some x) _ = some x
first_of none y = y

-- The value that a list of defaults gives a key; the last one counts.
unfoldable pub default_in : List (Text × Value) → Text → Option Value
default_in [] k = none
default_in ((j, x) ∷ rest) k =
    let own = if same_text j k then some x else none in first_of (default_in rest k) own

-- A variable that is empty counts as one that is not set.
abbrev pub text_of : Option Text → Option Value
text_of none = none
text_of (some []) = none
text_of (some (a ∷ t)) = some (text (a ∷ t))

-- The keys above those of the fields: a variable of such a key, or a value that the file gives it where
-- it should hold a table, shadows the settings below it.
unfoldable pub parent_keys : List Text
parent_keys =
    codes "chain"
    ∷ codes "storage"
    ∷ codes "storage.pika"
    ∷ codes "execution"
    ∷ codes "evm"
    ∷ codes "worker_pools"
    ∷ codes "worker_pools.tx_executor"
    ∷ codes "worker_pools.state_committer"
    ∷ codes "worker_pools.receipt_writer"
    ∷ codes "metrics"
    ∷ codes "logging"
    ∷ []

unfoldable pub AllOf : (Text → Type 0) → List Text → Type 0
AllOf p [] = Unit {0}
AllOf p (k ∷ ks) = p k × AllOf p ks

pub AllOf-each : (p : Text → Type 0) (ks : List Text) → ((k : Text) → p k) → AllOf p ks
unfolding AllOf
AllOf-each p [] h = tt
AllOf-each p (k ∷ ks) h = (h k, AllOf-each p ks h)

-- No key above those of the fields has a variable.
abbrev pub IsUnshadowed : Env → Type 0
IsUnshadowed env = AllOf (λ k. text_of (env (env_name k)) ≡ none) parent_keys

-- What the documentation of viper promises: a field is read from the setting that its tags name, and
-- a setting from the environment, else from the file, else from the defaults, unless it is shadowed;
-- `immediate` says whether the file gives a key a value that is no table.
pub record IsViper (viper : Viper) : Type 0 where
  pub casts : Casts
  pub default_of : viper.V → Text → Option Value
  pub file_of : viper.V → Text → Option Value
  pub immediate : viper.V → Text → Bool
  pub new_plain : (k : Text) → immediate viper.new k ≡ false
  pub default_plain :
      (v : viper.V) (j : Text) (x : Value) (k : Text)
      → immediate (viper.set_default v j x) k ≡ immediate v k
  pub new_empty : (k : Text) → default_of viper.new k ≡ none
  pub new_unread : (k : Text) → file_of viper.new k ≡ none
  pub default_set :
      (v : viper.V) (j : Text) (x : Value) (k : Text)
      → default_of (viper.set_default v j x) k ≡ (if same_text j k then some x else default_of v k)
  pub default_unread :
      (v : viper.V) (j : Text) (x : Value) (k : Text)
      → file_of (viper.set_default v j x) k ≡ file_of v k
  pub read_keeps :
      (v w : viper.V) (path : Text)
      → viper.read_in_config (viper.set_config_file v path) ≡ some w
      → (k : Text) → default_of w k ≡ default_of v k
  pub unmarshals :
      (env : Env) (v : viper.V)
      → IsUnshadowed env
      → AllOf (λ k. immediate v k ≡ false) parent_keys
      → viper.unmarshal env (viper.automatic_env (viper.set_env_prefix v (codes "EVM_EXECUTOR")))
        ≡ read_config casts
            (λ k. first_of (text_of (env (env_name k))) (first_of (file_of v k) (default_of v k)))

module _ {viper : Viper} (laws : IsViper viper) where
  -- The file gives no key above those of the fields a value.
  abbrev pub IsPlain : viper.V → Type 0
  IsPlain v = AllOf (λ k. laws.immediate v k ≡ false) parent_keys

  pub set_all_plain :
      (ds : List (Text × Value)) (v : viper.V) (k : Text)
      → laws.immediate (set_all viper v ds) k ≡ laws.immediate v k
  unfolding set_all
  set_all_plain [] v k = refl
  set_all_plain ((j, x) ∷ ds) v k =
      set_all_plain ds (viper.set_default v j x) k ∙ laws.default_plain v j x k

  set_all_default :
      (ds : List (Text × Value)) (v : viper.V) (k : Text)
      → laws.default_of (set_all viper v ds) k ≡ first_of (default_in ds k) (laws.default_of v k)
  unfolding set_all default_in
  set_all_default [] v k = refl
  set_all_default ((j, x) ∷ ds) v k =
      set_all_default ds (viper.set_default v j x) k ∙ ground (arith, laws.default_set v j x k)

  pub set_all_unread :
      (ds : List (Text × Value)) (v : viper.V) (k : Text)
      → laws.file_of (set_all viper v ds) k ≡ laws.file_of v k
  unfolding set_all
  set_all_unread [] v k = refl
  set_all_unread ((j, x) ∷ ds) v k =
      set_all_unread ds (viper.set_default v j x) k ∙ laws.default_unread v j x k

  first_of-none : (o : Option Value) → first_of o none ≡ o
  first_of-none none = refl
  first_of-none (some x) = refl

  defaults-kept :
      (path : Text) (w : viper.V) (k : Text)
      → read_file viper (set_defaults viper viper.new) path ≡ some w
      → laws.default_of w k ≡ default_in defaults k
  unfolding read_file set_defaults
  defaults-kept path w k e =
      let set_up = set_all_default defaults viper.new k in
      let fresh =
        ap (first_of (default_in defaults k)) (laws.new_empty k)
        ∙ first_of-none (default_in defaults k) in
      kept path e ∙ set_up ∙ fresh
    where
      kept :
          (p : Text)
          → read_file viper (set_defaults viper viper.new) p ≡ some w
          → laws.default_of w k ≡ laws.default_of (set_all viper viper.new defaults) k
      kept [] e = ap (λ (v : viper.V). laws.default_of v k) (sym (some-injective _ _ e))
      kept (c ∷ p) e = laws.read_keeps (set_defaults viper viper.new) w (c ∷ p) e k

  -- When the file, if there is one, can be read, and neither a variable nor the file sets a key
  -- above those of the fields, `Load` makes the configuration from the values that each field's
  -- setting has by its variable, unless that is empty, else by the file, else by setDefaults,
  -- or returns an error if they cannot be decoded.
  pub load-layers :
      (env : Env) (path : Text) (w : viper.V)
      → read_file viper (set_defaults viper viper.new) path ≡ some w
      → IsUnshadowed env
      → IsPlain w
      → load viper env path
        ≡ loaded_or viper (
            read_config laws.casts (λ k.
              first_of
                (text_of (env (env_name k)))
                (first_of (laws.file_of w k) (default_in defaults k))))
  unfolding load
  load-layers env path w e unshadowed plain =
      let layers =
        ap (read_config laws.casts)
          {x = λ k.
            first_of (text_of (env (env_name k)))
              (first_of (laws.file_of w k) (laws.default_of w k))}
          {y = λ k.
            first_of (text_of (env (env_name k)))
              (first_of (laws.file_of w k) (default_in defaults k))}
          (λ i k.
            first_of (text_of (env (env_name k)))
              (first_of (laws.file_of w k) (defaults-kept path w k e i))) in
      rw (e, load) (ap (loaded_or viper) (laws.unmarshals env w unshadowed plain ∙ layers))
