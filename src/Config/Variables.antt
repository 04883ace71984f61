-- ===== src/Config/Variables.antt =====
-- The variables of the environment that pkg/config/config.go reads.
use evm_executor.Prelude.{
  ◌≡◌, refl, sym, ap, ◌∙◌, true, Option, some, [], ◌∷◌, ◌++◌, map, arith, Option-cases, inl, inr,
}
use evm_executor.Storage.Redis.{Text}
use evm_executor.Storage.Key.{codes}
use evm_executor.Config.{Value, Env, Viper, set_defaults, read_file, loaded_or, load}
use evm_executor.Config.Fields.{has_dot, read_config-same}
use evm_executor.Config.Layers.{upper, env_name, first_of, text_of, IsUnshadowed, IsPlain, IsViper}

has_dot-append : (s t : Text) → has_dot t ≡ true → has_dot (s ++ t) ≡ true
has_dot-append [] t h = h
has_dot-append (a ∷ s) t h = ground (arith, has_dot-append s t h)

has_dot-upper : (s : Text) → has_dot s ≡ true → has_dot (map upper s) ≡ true
has_dot-upper [] h = h
has_dot-upper (a ∷ s) h = ground (arith, has_dot-upper s)

env_name-dot : (k : Text) → has_dot k ≡ true → has_dot (env_name k) ≡ true
unfolding env_name
env_name-dot k h =
    has_dot-upper (codes "EVM_EXECUTOR" ++ codes "_" ++ k)
      (has_dot-append (codes "EVM_EXECUTOR" ++ codes "_") k h)

module _ {viper : Viper} (laws : IsViper viper) where
  -- The defect: where neither a variable nor the file sets a key above those of the fields,
  -- `Load` reads no variable whose name has no dot: two such environments that agree on the
  -- others load the same configuration, so EVM_EXECUTOR_STORAGE_PIKA_ADDR, as the README has
  -- it, and its like have no effect.
  pub load-env :
      (env env' : Env) (path : Text)
      → IsUnshadowed env
      → IsUnshadowed env'
      → ((w : viper.V)
          → read_file viper (set_defaults viper viper.new) path ≡ some w
          → IsPlain laws w)
      → ((name : Text) → has_dot name ≡ true → env name ≡ env' name)
      → load viper env path ≡ load viper env' path
  unfolding load
  load-env env env' path unshadowed unshadowed' plain same =
      elim (Option-cases (read_file viper (set_defaults viper viper.new) path)) [
        | inl failed ↦ rw (failed, load) refl
        | inr (w, read) ↦
            let value : Env → Text → Option Value = λ e k.
              first_of (text_of (e (env_name k)))
                (first_of (laws.file_of w k) (laws.default_of w k)) in
            let agree : (k : Text) → has_dot k ≡ true → value env k ≡ value env' k = λ k dot.
              ap
                (λ (t : Option Text).
                  first_of (text_of t) (first_of (laws.file_of w k) (laws.default_of w k)))
                (same (env_name k) (env_name-dot k dot)) in
            rw (read, load)
              (ap (loaded_or viper) (
                laws.unmarshals env w unshadowed (plain w read)
                ∙ read_config-same laws.casts (value env) (value env') agree
                ∙ sym (laws.unmarshals env' w unshadowed' (plain w read))))
      ]
