-- ===== src/State/Frame/Opened.antt =====
-- What a state database that `NewPikaStateDB` of pkg/state/statedb.go has just opened reads.
use mathlib.Core.Path.{subst}
use evm_executor.Prelude.{ℕ, ◌≡◌, refl, ◌∙◌, some, lookup}
use evm_executor.Deps.{Deps, IsDeps}
use evm_executor.Storage.Ops.{Address, Hash}
use evm_executor.Storage.State
use evm_executor.State.Db.{PikaStateDb, new_pika_state_db}
use evm_executor.State.Read.{get_account, get_state, written_slot}
use evm_executor.State.Read.Spec.{account_at, slot_at, or_new, or_zero}
use evm_executor.State.Read.Results.{get_account-eq, get_state-eq}
use evm_executor.State.Frame.Invariant.{new_pika_state_db-fresh, new_pika_state_db-Ready}
use evm_executor.State.Commit.Written.{IsMaps}

module _ {d : Deps} (db : d.redis.Db) (n state_size storage_size code_size : ℕ) {t : PikaStateDb d}
    (opened : new_pika_state_db d db n state_size storage_size code_size ≡ some t) where
  -- Its fields: the store and the block that it was given, and empty maps.
  pub opened_fields : (t.db ≡ db) × (t.block_number ≡ n) × IsMaps t
  opened_fields =
      let (ca, cb, cc, _, _, _, same) =
        new_pika_state_db-fresh db n state_size storage_size code_size opened in
      subst (λ (u : PikaStateDb d). (u.db ≡ db) × (u.block_number ≡ n) × IsMaps u) same
        (refl, refl, record { accounts = tt; storages = tt; slots = tt; codes = tt })

  pub get_account-opened :
      IsDeps d → (a : Address) → (get_account t a).0 ≡ or_new (State.get_account d db n a)
  unfolding lookup
  get_account-opened laws a =
      let (ca, cb, cc, _, _, _, same) =
        new_pika_state_db-fresh db n state_size storage_size code_size opened in
      get_account-eq t a
        (new_pika_state_db-Ready laws db n state_size storage_size code_size t opened).coherent
      ∙ subst (λ (u : PikaStateDb d). account_at u a ≡ or_new (State.get_account d db n a)) same
          refl

  pub get_state-opened :
      IsDeps d
      → (a : Address) (x : Hash) → (get_state t a x).0 ≡ or_zero (State.get_storage d db n a x)
  unfolding lookup written_slot
  get_state-opened laws a x =
      let (ca, cb, cc, _, _, _, same) =
        new_pika_state_db-fresh db n state_size storage_size code_size opened in
      get_state-eq t a x
        (new_pika_state_db-Ready laws db n state_size storage_size code_size t opened).coherent
      ∙ subst (λ (u : PikaStateDb d). slot_at u a x ≡ or_zero (State.get_storage d db n a x)) same
          refl
