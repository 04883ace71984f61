-- ===== src/Storage/Batch.antt =====
-- What `BatchWrite` of pkg/storage/state.go does to the store: the state as a map from the pieces of
-- state that have a key, which a list of operations updates.
pub mod Apart
pub mod Singles
use mathlib.Core.Path.{subst}
use evm_executor.Prelude.{
  ℕ, ◌≡◌, ◌≢◌, ◌⊎◌, refl, sym, ap, ◌∙◌, Bool, true, false, ◌&&◌, ◌||◌, Option, none, some, List, [],
  ◌∷◌, ◌++◌, ltb, ◌==◌, if◌then◌else◌, arith, inl, inr, Bool-cases, Option-cases,
}
use evm_executor.Deps.{Deps, IsDeps}
use evm_executor.Storage.Redis.{Text, Command, Error, Result, ok, err, LastWrite, execute_pipeline}
use evm_executor.Storage.Key.Faithful.{
  StateKey, account, storage, contract_code, state_root, render, render-injective,
}
use evm_executor.Storage.Ops.{state_history_ttl, WriteOp, write_account, write_storage, write_code}
use evm_executor.Storage.State.{both, queue_op, queue_ops, batch_write}

unfoldable pub same_key : StateKey → StateKey → Bool
same_key (account n a) (account m b) = n == m && a == b
same_key (storage n a k) (storage m b j) = n == m && a == b && k == j
same_key (contract_code h) (contract_code g) = h == g
same_key (state_root n) (state_root m) = n == m
same_key _ _ = false

pub same_key-eq : (j k : StateKey) → same_key j k ≡ true → j ≡ k
unfolding same_key
same_key-eq (account n a) (account m b) e = ground arith
same_key-eq (storage n a x) (storage m b y) e = ground arith
same_key-eq (contract_code h) (contract_code g) e = ground arith
same_key-eq (state_root n) (state_root m) e = ground arith
same_key-eq j k e = ground arith

same_key_refl : (j : StateKey) → same_key j j ≡ true
unfolding same_key
same_key_refl (account n a) = ground arith
same_key_refl (storage n a x) = ground arith
same_key_refl (contract_code h) = ground arith
same_key_refl (state_root n) = ground arith

abbrev pub later : Option Text → Option Text → Option Text
later none o = o
later (some v) o = some v

module _ (d : Deps) where
  -- The text that one operation leaves under a piece of state, if it writes it.
  unfoldable pub written_by : WriteOp → StateKey → Option Text
  written_by (write_account n a acc) k =
      if same_key (account n a) k || same_key (account 0 a) k then d.marshal acc else none
  written_by (write_storage n a x v) k =
      if same_key (storage n a x) k || same_key (storage 0 a x) k then some (d.hex_hash v) else none
  written_by (write_code h code) k = if same_key (contract_code h) k then some code else none

  -- The text that the operations leave there: the last one wins.
  unfoldable pub last_written : List WriteOp → StateKey → Option Text
  last_written [] k = none
  last_written (op ∷ ops) k = later (last_written ops k) (written_by op k)

  abbrev pub key_of : StateKey → Text
  key_of = render d.hex_address d.hex_hash

pub later-LastWrite :
    (k : Text) (cs ds : List Command) (o p : Option Text)
    → LastWrite k cs o
    → LastWrite k ds p
    → LastWrite k (cs ++ ds) (later p o)
later-LastWrite k cs ds o (some v) w u = over cs
  where
    over : (cs : List Command) → LastWrite k (cs ++ ds) (some v)
    over [] = u
    over (c ∷ cs) = LastWrite.earlier (over cs)
later-LastWrite k [] ds o none LastWrite.nothing u = u
later-LastWrite k (c ∷ cs) ds o none (LastWrite.earlier w) u =
    LastWrite.earlier (later-LastWrite k cs ds o none w u)
later-LastWrite k (c ∷ cs) ds o none (LastWrite.hit h w) u =
    LastWrite.hit h (later-LastWrite k cs ds none none w u)
later-LastWrite k (c ∷ cs) ds o none (LastWrite.miss h w) u =
    LastWrite.miss h (later-LastWrite k cs ds none none w u)

err_ne_ok : {A : Type 0} {e : Error} {a : A} → err e ≢ ok a
err_ne_ok h = cc

pub ok_injective : {A : Type 0} {a b : A} → ok a ≡ ok b → a ≡ b
ok_injective h = cc

pub Result-cases :
    {A : Type 0} (r : Result A) → ((e : Error) × (r ≡ err e)) ⊎ ((a : A) × (r ≡ ok a))
Result-cases (err e) = inl (e, refl)
Result-cases (ok a) = inr (a, refl)

pub queue_ops-cons :
    (d : Deps) (op : WriteOp) (ops : List WriteOp) (cs : List Command)
    → queue_ops d (op ∷ ops) ≡ ok cs
    → (here : List Command) × (rest : List Command) × (queue_op d op ≡ ok here)
      × (queue_ops d ops ≡ ok rest)
      × (here ++ rest ≡ cs)
unfolding queue_ops
queue_ops-cons d op ops cs e = elim (Result-cases (queue_op d op)) [
  | inl (error, failed) ↦ absurd (err_ne_ok {e = error} {a = cs} (sym (rw (failed, queue_ops)) ∙ e))
  | inr (here, first) ↦ elim (Result-cases (queue_ops d ops)) [
    | inl (error, failed) ↦
        absurd (err_ne_ok {e = error} {a = cs} (sym (rw (first, queue_ops) (rw failed)) ∙ e))
    | inr (rest, others) ↦
        let both_queued : queue_ops d (op ∷ ops) ≡ ok (here ++ rest) =
          rw (first, queue_ops) (rw others) in
        (here, rest, first, others, ok_injective (sym both_queued ∙ e))
  ]
]

module _ {d : Deps} (laws : IsDeps d) where
  pub key_ne : (j k : StateKey) → same_key j k ≡ false → key_of d j ≢ key_of d k
  key_ne j k h e =
      let p = render-injective laws.address_text laws.hash_text j k e in
      cc (same_key_refl j, ap (same_key j) p, h)

  single-LastWrite :
      (j k : StateKey) (v : Text) (ttl : ℕ)
      → LastWrite
          (key_of d k)
          (record { key = key_of d j; value = v; ttl = ttl } ∷ [])
          (if same_key j k then some v else none)
  single-LastWrite j k v ttl = elim (Bool-cases (same_key j k)) [
    | inl h ↦ rw h (LastWrite.hit (ap (key_of d) (same_key-eq j k h)) LastWrite.nothing)
    | inr h ↦ rw h (LastWrite.miss (key_ne j k h) LastWrite.nothing)
  ]

  both-LastWrite :
      (n : ℕ) (f : ℕ → StateKey) (k : StateKey) (v : Text)
      → LastWrite
          (key_of d k)
          (both d n (key_of d (f n)) (key_of d (f 0)) v)
          (if same_key (f n) k || same_key (f 0) k then some v else none)
  unfolding both
  both-LastWrite n f k v = elim (Bool-cases (ltb 0 n)) [
    | inl historical ↦ rw historical (
        subst (LastWrite (key_of d k) _) (ground arith) (
          later-LastWrite (key_of d k)
            (record { key = key_of d (f n); value = v; ttl = state_history_ttl } ∷ [])
            (record { key = key_of d (f 0); value = v; ttl = 0 } ∷ []) _ _
            (single-LastWrite (f n) k v state_history_ttl) (single-LastWrite (f 0) k v 0)))
    | inr latest_only ↦
        let zero_block : n ≡ 0 = ground arith in
        rw latest_only (
          subst (LastWrite (key_of d k) _)
            (ground (arith, ap f zero_block, ap (λ m. same_key (f m) k) zero_block))
            (single-LastWrite (f 0) k v 0))
  ]

  op-LastWrite :
      (op : WriteOp) (cs : List Command) (k : StateKey)
      → queue_op d op ≡ ok cs
      → LastWrite (key_of d k) cs (written_by d op k)
  unfolding queue_op written_by render
  op-LastWrite (write_account n a acc) cs k e = elim (Option-cases (d.marshal acc)) [
    | inl failed ↦ ground arith
    | inr (t, text) ↦
        let queued : queue_op d (write_account n a acc)
            ≡ ok (both d n (key_of d (account n a)) (key_of d (account 0 a)) t) =
          ground arith in
        subst (λ c. LastWrite (key_of d k) c (written_by d (write_account n a acc) k))
          (ok_injective (sym queued ∙ e)) (rw text (both-LastWrite n (λ m. account m a) k t))
  ]
  op-LastWrite (write_storage n a x v) cs k e =
      subst (λ c. LastWrite (key_of d k) c (written_by d (write_storage n a x v) k))
        (ok_injective e) (both-LastWrite n (λ m. storage m a x) k (d.hex_hash v))
  op-LastWrite (write_code h code) cs k e =
      subst (λ c. LastWrite (key_of d k) c (written_by d (write_code h code) k)) (ok_injective e)
        (single-LastWrite (contract_code h) k code 0)

  ops-LastWrite :
      (ops : List WriteOp) (cs : List Command) (k : StateKey)
      → queue_ops d ops ≡ ok cs
      → LastWrite (key_of d k) cs (last_written d ops k)
  unfolding queue_ops last_written
  ops-LastWrite [] cs k e =
      subst (λ c. LastWrite (key_of d k) c none) (ok_injective e) LastWrite.nothing
  ops-LastWrite (op ∷ ops) cs k e =
      let (here, rest, queued_here, queued_rest, joined) = queue_ops-cons d op ops cs e in
      subst (λ c. LastWrite (key_of d k) c (later (last_written d ops k) (written_by d op k)))
        joined
        (later-LastWrite (key_of d k) here rest _ _ (op-LastWrite op here k queued_here)
          (ops-LastWrite ops rest k queued_rest))

  -- If a batch is written without an error, then the store holds, under every piece of state, what
  -- the last operation of the batch that writes it puts there, and else what it held before.
  pub batch_write-get :
      (db : d.redis.Db) (ops : List WriteOp) (k : StateKey)
      → (batch_write d db ops).1 ≡ ok tt
      → d.redis.get (batch_write d db ops).0 (key_of d k)
        ≡ later (last_written d ops k) (d.redis.get db (key_of d k))
  unfolding batch_write execute_pipeline
  batch_write-get db ops k done = elim (Result-cases (queue_ops d ops)) [
    | inl (error, failed) ↦ ground arith
    | inr (cs, queued) ↦
        let written = ops-LastWrite ops cs k queued in
        elim (Option-cases (last_written d ops k)) [
          | inl untouched ↦ ground (
            arith,
            laws.redis_laws.exec_keeps db cs (key_of d k),
            subst (LastWrite (key_of d k) cs) untouched written,
          )
          | inr (v, last) ↦ ground (
            arith,
            laws.redis_laws.exec_writes db cs (key_of d k) v,
            subst (LastWrite (key_of d k) cs) last written,
          )
        ]
  ]

  -- A batch leaves alone the pieces of state that none of its operations writes, whether it reports an
  -- error or not.
  pub batch_write-keeps :
      (db : d.redis.Db) (ops : List WriteOp) (k : StateKey)
      → last_written d ops k ≡ none
      → d.redis.get (batch_write d db ops).0 (key_of d k) ≡ d.redis.get db (key_of d k)
  unfolding batch_write execute_pipeline
  batch_write-keeps db ops k untouched = elim (Result-cases (queue_ops d ops)) [
    | inl (error, failed) ↦ ground arith
    | inr (cs, queued) ↦ ground (
      arith,
      laws.redis_laws.exec_keeps db cs (key_of d k),
      subst (LastWrite (key_of d k) cs) untouched (ops-LastWrite ops cs k queued),
    )
  ]
