-- ===== src/Storage/Batch/Singles.antt =====
-- The single writes of `StateStorage` (pkg/storage/state.go) as updates of the map from pieces of state.
use evm_executor.Prelude.{
  ℕ, ◌≡◌, refl, sym, ap, ◌∙◌, Bool, true, false, ◌||◌, Option, none, some, ltb, if◌then◌else◌,
  arith, inl, inr, Bool-cases, Option-cases,
}
use evm_executor.Deps.{Deps, IsDeps}
use evm_executor.Storage.Redis.{Text, Command, Result, ok, err, client_set}
use evm_executor.Storage.Key.Faithful.{
  StateKey, account, storage, contract_code, state_root, render,
}
use evm_executor.Storage.Ops.{Address, Hash, StoredAccount, state_history_ttl}
use evm_executor.Storage.State.{
  set_account, set_storage, set_code, set_state_root, set_both, with_latest,
}
use evm_executor.Storage.Batch.{same_key, same_key-eq, key_ne, key_of, later, Result-cases}

-- A call of one of the four `Set` methods.
pub data Write : Type 0 where
  of_account : ℕ → Address → StoredAccount → Write
  of_storage : ℕ → Address → Hash → Hash → Write
  of_code : Hash → Text → Write
  of_state_root : ℕ → Hash → Write

module _ (d : Deps) where
  unfoldable pub write_one : d.redis.Db → Write → d.redis.Db × Result (Unit {0})
  write_one db (of_account n a acc) = set_account d db n a acc
  write_one db (of_storage n a x v) = set_storage d db n a x v
  write_one db (of_code h code) = set_code d db h code
  write_one db (of_state_root n root) = set_state_root d db n root

  -- The text that the call is to leave under a piece of state, if it writes it.
  unfoldable pub text_of : Write → StateKey → Option Text
  text_of (of_account n a acc) k =
      if same_key (account n a) k || same_key (account 0 a) k then d.marshal acc else none
  text_of (of_storage n a x v) k =
      if same_key (storage n a x) k || same_key (storage 0 a x) k then some (d.hex_hash v) else none
  text_of (of_code h code) k = if same_key (contract_code h) k then some code else none
  text_of (of_state_root n root) k =
      if same_key (state_root n) k then some (d.hex_hash root) else none

later-both :
    (b c : Bool) (v : Text) (o : Option Text)
    → later (if c then some v else none) (later (if b then some v else none) o)
      ≡ later (if b || c then some v else none) o
later-both true true v o = refl
later-both true false v o = refl
later-both false true v o = refl
later-both false false v o = refl

module _ {d : Deps} (laws : IsDeps d) where
  set-get :
      (db : d.redis.Db) (j k : StateKey) (v : Text) (ttl : ℕ)
      → (client_set d.redis db (record { key = key_of d j; value = v; ttl = ttl })).1 ≡ ok tt
      → d.redis.get
          (client_set d.redis db (record { key = key_of d j; value = v; ttl = ttl })).0
          (key_of d k)
        ≡ later (if same_key j k then some v else none) (d.redis.get db (key_of d k))
  unfolding client_set
  set-get db j k v ttl done =
      let c : Command = record { key = key_of d j; value = v; ttl = ttl } in
      let reported : (d.redis.set db c).1 ≡ true = ground arith in
      elim (Bool-cases (same_key j k)) [
        | inl same ↦ rw same (
            ap (λ (t : Text). d.redis.get (d.redis.set db c).0 t)
              (sym (ap (key_of d) (same_key-eq j k same)))
            ∙ laws.redis_laws.set_writes db c reported)
        | inr other ↦ rw other (laws.redis_laws.set_keeps db c (key_of d k) (key_ne laws j k other))
      ]

  set_both-get :
      (db : d.redis.Db) (n : ℕ) (f : ℕ → StateKey) (k : StateKey) (v : Text)
      → (set_both d db n (key_of d (f n)) (key_of d (f 0)) v).1 ≡ ok tt
      → d.redis.get (set_both d db n (key_of d (f n)) (key_of d (f 0)) v).0 (key_of d k)
        ≡ later
            (if same_key (f n) k || same_key (f 0) k then some v else none)
            (d.redis.get db (key_of d k))
  unfolding set_both
  set_both-get db n f k v done = elim (Bool-cases (ltb 0 n)) [
    | inr latest_only ↦
        let zero_block : n ≡ 0 = ground arith in
        let run : set_both d db n (key_of d (f n)) (key_of d (f 0)) v
            ≡ client_set d.redis db (record { key = key_of d (f 0); value = v; ttl = 0 }) =
          rw (latest_only, set_both) refl in
        ap (λ r. d.redis.get r.0 (key_of d k)) run
        ∙ set-get db (f 0) k v 0 (ap (λ r. r.1) (sym run) ∙ done)
        ∙ ground (arith, ap f zero_block, ap (λ m. same_key (f m) k) zero_block)
    | inl historical ↦
        let hist : Command = record { key = key_of d (f n); value = v; ttl = state_history_ttl } in
        let latest : Command = record { key = key_of d (f 0); value = v; ttl = 0 } in
        let first = client_set d.redis db hist in
        elim (Result-cases first.1) [
          | inl (error, refused) ↦
              let run : (set_both d db n (key_of d (f n)) (key_of d (f 0)) v).1 ≡ err error =
                rw (historical, set_both)
                  (ap
                    (λ (q : _).
                      (with_latest d (λ (db' : d.redis.Db). client_set d.redis db' latest)
                        (first.0, q)).1)
                    refused) in
              cc (run, done)
          | inr (_, stored) ↦
              let run : set_both d db n (key_of d (f n)) (key_of d (f 0)) v
                  ≡ client_set d.redis first.0 latest =
                rw (historical, set_both)
                  (ap
                    (λ (q : _).
                      with_latest d (λ (db' : d.redis.Db). client_set d.redis db' latest)
                        (first.0, q))
                    stored) in
              ap (λ r. d.redis.get r.0 (key_of d k)) run
              ∙ set-get first.0 (f 0) k v 0 (ap (λ r. r.1) (sym run) ∙ done)
              ∙ ap (later (if same_key (f 0) k then some v else none))
                  (set-get db (f n) k v state_history_ttl stored)
              ∙ later-both (same_key (f n) k) (same_key (f 0) k) v _
        ]
  ]

  -- After a call of SetAccount, SetStorage, SetCode or SetStateRoot that reports no error, the store
  -- holds under every piece of state what the call is to leave there (an account or a slot both under
  -- its block and as the latest one), and what it held before where the call writes nothing.
  pub write_one-get :
      (db : d.redis.Db) (w : Write) (k : StateKey)
      → (write_one d db w).1 ≡ ok tt
      → d.redis.get (write_one d db w).0 (key_of d k)
        ≡ later (text_of d w k) (d.redis.get db (key_of d k))
  unfolding write_one text_of set_account set_storage set_code set_state_root render
  write_one-get db (of_account n a acc) k done = elim (Option-cases (d.marshal acc)) [
    | inl failed ↦ ground (arith, failed)
    | inr (t, encoded) ↦
        let run : set_account d db n a acc
            ≡ set_both d db n (key_of d (account n a)) (key_of d (account 0 a)) t =
          rw (encoded, set_account) refl in
        ap (λ r. d.redis.get r.0 (key_of d k)) run
        ∙ set_both-get db n (λ m. account m a) k t (ap (λ r. r.1) (sym run) ∙ done)
        ∙ ap
            (λ (o : Option Text).
              later (if same_key (account n a) k || same_key (account 0 a) k then o else none)
                (d.redis.get db (key_of d k)))
            (sym encoded)
  ]
  write_one-get db (of_storage n a x v) k done =
      set_both-get db n (λ m. storage m a x) k (d.hex_hash v) done
  write_one-get db (of_code h code) k done = set-get db (contract_code h) k code 0 done
  write_one-get db (of_state_root n root) k done =
      set-get db (state_root n) k (d.hex_hash root) state_history_ttl done
