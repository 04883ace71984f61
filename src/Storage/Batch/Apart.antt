-- ===== src/Storage/Batch/Apart.antt =====
-- What `BatchWrite` of pkg/storage/state.go does to the keys that are not keys of the state.
use mathlib.Core.Path.{subst}
use evm_executor.Prelude.{
  ℕ, ◌≡◌, ◌≢◌, sym, ◌∙◌, none, List, [], ◌∷◌, ltb, arith, Bool-cases, Option-cases, inl, inr,
}
use evm_executor.Deps.{Deps, IsDeps}
use evm_executor.Storage.Redis.{Text, Command, ok, LastWrite, execute_pipeline}
use evm_executor.Storage.Key.Faithful.{StateKey, account, storage, contract_code, render}
use evm_executor.Storage.Ops.{WriteOp, write_account, write_storage, write_code}
use evm_executor.Storage.State.{both, queue_op, queue_ops, batch_write}
use evm_executor.Storage.Batch.{key_of, later-LastWrite, ok_injective, queue_ops-cons, Result-cases}

module _ {d : Deps} (laws : IsDeps d) (t : Text) (apart : (k : StateKey) → key_of d k ≢ t) where
  both-apart :
      (n : ℕ) (j k : StateKey) (v : Text) → LastWrite t (both d n (key_of d j) (key_of d k) v) none
  unfolding both
  both-apart n j k v = elim (Bool-cases (ltb 0 n)) [
    | inl historical ↦
        rw historical (LastWrite.miss (apart j) (LastWrite.miss (apart k) LastWrite.nothing))
    | inr latest_only ↦ rw latest_only (LastWrite.miss (apart k) LastWrite.nothing)
  ]

  op-apart : (op : WriteOp) (cs : List Command) → queue_op d op ≡ ok cs → LastWrite t cs none
  unfolding queue_op render
  op-apart (write_account n a acc) cs e = elim (Option-cases (d.marshal acc)) [
    | inl failed ↦ ground arith
    | inr (text, encoded) ↦
        let queued : queue_op d (write_account n a acc)
            ≡ ok (both d n (key_of d (account n a)) (key_of d (account 0 a)) text) =
          ground arith in
        subst (λ cs. LastWrite t cs none) (ok_injective (sym queued ∙ e))
          (both-apart n (account n a) (account 0 a) text)
  ]
  op-apart (write_storage n a x v) cs e =
      subst (λ cs. LastWrite t cs none) (ok_injective e)
        (both-apart n (storage n a x) (storage 0 a x) (d.hex_hash v))
  op-apart (write_code h code) cs e =
      subst (λ cs. LastWrite t cs none) (ok_injective e)
        (LastWrite.miss (apart (contract_code h)) LastWrite.nothing)

  ops-apart :
      (ops : List WriteOp) (cs : List Command) → queue_ops d ops ≡ ok cs → LastWrite t cs none
  unfolding queue_ops
  ops-apart [] cs e = subst (λ cs. LastWrite t cs none) (ok_injective e) LastWrite.nothing
  ops-apart (op ∷ ops) cs e =
      let (here, rest, queued_here, queued_rest, joined) = queue_ops-cons d op ops cs e in
      subst (λ cs. LastWrite t cs none) joined
        (later-LastWrite t here rest none none (op-apart op here queued_here)
          (ops-apart ops rest queued_rest))

  -- A batch leaves the other keys alone, whether it reports an error or not.
  pub batch_write-apart :
      (db : d.redis.Db) (ops : List WriteOp)
      → d.redis.get (batch_write d db ops).0 t ≡ d.redis.get db t
  unfolding batch_write execute_pipeline
  batch_write-apart db ops = elim (Result-cases (queue_ops d ops)) [
    | inl (error, failed) ↦ ground arith
    | inr (cs, queued) ↦
        ground (arith, laws.redis_laws.exec_keeps db cs t (ops-apart ops cs queued))
  ]
