-- ===== src/State/Frame/Invariant.antt =====
-- The invariant of the state database of pkg/state/statedb.go.
use mathlib.Core.Path.{subst}
use mathlib.Core.Option.{some-injective}
use evm_executor.Prelude.{ℕ, ◌<◌, ◌≡◌, sym, ◌∙◌, some, List, [], ◌∷◌, arith, Option-cases, inl, inr}
use evm_executor.Deps.{Deps, IsDeps}
use evm_executor.State.Db.{Revision, PikaStateDb, word, fresh, new_pika_state_db}
use evm_executor.Lru.{new-Agrees}
use evm_executor.State.Read.Coherent.{Coherent}
use evm_executor.State.Read.Results.{get_account-Coherent, get_state-Coherent, get_code-Coherent}
use evm_executor.State.Frame.{Op, step}
use evm_executor.State.Read
use evm_executor.State.Write

-- Every id is below the next one.
abbrev pub IdsBelow : ℕ → List Revision → Type 0
IdsBelow n [] = Unit {0}
IdsBelow n (r ∷ rs) = (r.id < n) × IdsBelow n rs

-- The caches hold what the store answers, the log count is a 64-bit word, and the snapshot ids are
-- below the next one.
pub record Ready {d : Deps} (s : PikaStateDb d) : Type 0 where
  pub coherent : Coherent s
  pub small : s.log_size < word
  pub ids : IdsBelow s.next_revision_id s.valid_revisions

program : Unit {0}
unfolding step Read.get_account Read.get_code Read.get_state Write.create_account Write.suicide
    Write.add_address_to_access_list Write.sub_balance Write.add_balance Write.set_nonce
    Write.set_code Write.set_state Write.add_log Write.add_refund Write.sub_refund
    Write.add_preimage
program = tt

module _ {d : Deps} (laws : IsDeps d) (s : PikaStateDb d) where
  -- Every step keeps the agreement of the caches with the store.
  pub step-Coherent : Coherent s → (op : Op) → Coherent (step s op)
  unfolding program
  step-Coherent coherent (Op.create_account a) =
      ground (arith, get_account-Coherent s laws a coherent)
  step-Coherent coherent (Op.suicide a) = ground (arith, get_account-Coherent s laws a coherent)
  step-Coherent coherent (Op.add_address a) = ground arith
  step-Coherent coherent (Op.read_account a) =
      ground (arith, get_account-Coherent s laws a coherent)
  step-Coherent coherent (Op.read_code a) = ground (arith, get_code-Coherent s laws a coherent)
  step-Coherent coherent (Op.sub_balance a n) =
      ground (arith, get_account-Coherent s laws a coherent)
  step-Coherent coherent (Op.add_balance a n) =
      ground (arith, get_account-Coherent s laws a coherent)
  step-Coherent coherent (Op.set_nonce a n) = ground (arith, get_account-Coherent s laws a coherent)
  step-Coherent coherent (Op.set_code a code) = ground (
    arith,
    get_code-Coherent (Read.get_account s a).1 laws a (get_account-Coherent s laws a coherent),
  )
  step-Coherent coherent (Op.set_state a k v) =
      ground (arith, get_state-Coherent s laws a k coherent)
  step-Coherent coherent (Op.read_state a k) =
      ground (arith, get_state-Coherent s laws a k coherent)
  step-Coherent coherent (Op.add_log l) = ground arith
  step-Coherent coherent (Op.add_refund n) = ground arith
  step-Coherent coherent (Op.sub_refund n) = ground arith
  step-Coherent coherent (Op.add_preimage h t) = ground arith

  -- Every step keeps the invariant.
  pub step-Ready : Ready s → (op : Op) → Ready (step s op)
  unfolding program
  step-Ready ready (Op.create_account a) =
      ground (arith, step-Coherent ready.coherent (Op.create_account a))
  step-Ready ready (Op.suicide a) = ground (arith, step-Coherent ready.coherent (Op.suicide a))
  step-Ready ready (Op.add_address a) =
      ground (arith, step-Coherent ready.coherent (Op.add_address a))
  step-Ready ready (Op.read_account a) =
      ground (arith, step-Coherent ready.coherent (Op.read_account a))
  step-Ready ready (Op.read_code a) = ground (arith, step-Coherent ready.coherent (Op.read_code a))
  step-Ready ready (Op.sub_balance a n) =
      ground (arith, step-Coherent ready.coherent (Op.sub_balance a n))
  step-Ready ready (Op.add_balance a n) =
      ground (arith, step-Coherent ready.coherent (Op.add_balance a n))
  step-Ready ready (Op.set_nonce a n) =
      ground (arith, step-Coherent ready.coherent (Op.set_nonce a n))
  step-Ready ready (Op.set_code a code) =
      ground (arith, step-Coherent ready.coherent (Op.set_code a code))
  step-Ready ready (Op.set_state a k v) =
      ground (arith, step-Coherent ready.coherent (Op.set_state a k v))
  step-Ready ready (Op.read_state a k) =
      ground (arith, step-Coherent ready.coherent (Op.read_state a k))
  step-Ready ready (Op.add_log l) = ground (arith, step-Coherent ready.coherent (Op.add_log l))
  step-Ready ready (Op.add_refund n) =
      ground (arith, step-Coherent ready.coherent (Op.add_refund n))
  step-Ready ready (Op.sub_refund n) =
      ground (arith, step-Coherent ready.coherent (Op.sub_refund n))
  step-Ready ready (Op.add_preimage h t) =
      ground (arith, step-Coherent ready.coherent (Op.add_preimage h t))

module _ {d : Deps} where
  -- Whatever `NewPikaStateDB` returns without an error is a new record over new caches.
  pub new_pika_state_db-fresh :
      (db : d.redis.Db) (block_number state_size storage_size code_size : ℕ) {s : PikaStateDb d}
      → new_pika_state_db d db block_number state_size storage_size code_size ≡ some s
      → (a : d.account_lru.Cache) × (b : d.slot_lru.Cache) × (c : d.code_lru.Cache)
        × (d.account_lru.new state_size ≡ some a)
        × (d.slot_lru.new storage_size ≡ some b)
        × (d.code_lru.new code_size ≡ some c)
        × (fresh d db block_number a b c ≡ s)
  unfolding new_pika_state_db
  new_pika_state_db-fresh db block_number state_size storage_size code_size {s} e =
      elim (Option-cases (d.account_lru.new state_size)) [
        | inl failed ↦ ground arith
        | inr (a, ea) ↦ elim (Option-cases (d.slot_lru.new storage_size)) [
          | inl failed ↦ ground arith
          | inr (b, eb) ↦ elim (Option-cases (d.code_lru.new code_size)) [
            | inl failed ↦ ground arith
            | inr (c, ec) ↦ (
              a,
              b,
              c,
              ea,
              eb,
              ec,
              some-injective _ _ (
                  sym (
                    rw (ea, new_pika_state_db)
                      (rw (eb, new_pika_state_db) (rw (ec, new_pika_state_db))))
                  ∙ e),
            )
          ]
        ]
      ]

  -- Whatever `NewPikaStateDB` returns without an error has the invariant.
  pub new_pika_state_db-Ready :
      IsDeps d
      → (db : d.redis.Db) (block_number state_size storage_size code_size : ℕ) (s : PikaStateDb d)
      → new_pika_state_db d db block_number state_size storage_size code_size ≡ some s
      → Ready s
  new_pika_state_db-Ready laws db block_number state_size storage_size code_size s e =
      let (a, b, c, ea, eb, ec, same) =
        new_pika_state_db-fresh db block_number state_size storage_size code_size e in
      subst Ready same (record {
        coherent = record {
          account_level = new-Agrees laws.account_cache _ _ a state_size ea;
          slot_level = new-Agrees laws.slot_cache _ _ b storage_size eb;
          code_level = new-Agrees laws.code_cache _ _ c code_size ec;
        };
        small = omega arith;
        ids = tt;
      })
