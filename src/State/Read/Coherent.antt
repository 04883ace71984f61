-- ===== src/State/Read/Coherent.antt =====
-- The three levels of every read of pkg/state/statedb.go, beside the reads of State/Read/Spec.antt.
use native.Mathlib.Decide.{ℕ_discrete}
use evm_executor.Prelude.{
  ◌≡◌, Option, none, some, lookup, lookup-insert, [], arith, ◌==◌, if◌then◌else◌,
}
use evm_executor.Deps.{Deps, IsDeps}
use evm_executor.Lru.{Agrees, get-Agrees, add-Agrees}
use evm_executor.Storage.Redis.{Text, Result, ok, err}
use evm_executor.Storage.Key.{cache_key}
use evm_executor.Storage.Key.Faithful.{cache_key-injective}
use evm_executor.Storage.Ops.{Address, Hash, StoredAccount}
use evm_executor.Storage.State
use evm_executor.State.Account.{Account}
use evm_executor.State.Db.{PikaStateDb}
use evm_executor.State.Read.{load_account, load_slot, load_code}
use evm_executor.State.Read.Spec.{account_at, slot_at, code_of, account_view}

abbrev pub answer : {A : Type 0} → Result A → Option A
answer (ok a) = some a
answer (err e) = none

-- Every cache holds only what the store answers now.
pub record Coherent {d : Deps} (s : PikaStateDb d) : Type 0 where
  pub account_level :
      Agrees d.account_lru
        (λ a. a)
        (λ a. answer (State.get_account d s.db s.block_number a))
        s.state_cache
  pub slot_level :
      Agrees d.slot_lru
        (λ p. cache_key d.hex_address d.hex_hash p.0 p.1)
        (λ (p : Address × Hash). answer (State.get_storage d s.db s.block_number p.0 p.1))
        s.storage_cache
  pub code_level : Agrees d.code_lru (λ h. h) (λ h. answer (State.get_code d s.db h)) s.code_cache

module _ {d : Deps} (s : PikaStateDb d) where
  pub load_account-eq : (addr : Address) → Coherent s → (load_account s addr).0 ≡ account_at s addr
  unfolding load_account
  load_account-eq addr h = grind (arith, h.account_level.at addr)

  pub load_slot-eq :
      (addr : Address) (key : Hash) → Coherent s → (load_slot s addr key).0 ≡ slot_at s addr key
  unfolding load_slot
  load_slot-eq addr key h = grind (arith, h.slot_level.at (addr, key))

  pub load_code-eq :
      (h : Hash) → Coherent s → (load_code s h).0 ≡ (if h == 0 then [] else code_of s h)
  unfolding load_code
  load_code-eq h c = grind (arith, c.code_level.at h)

  -- Loading an account changes no account, and keeps what was loaded.
  pub account_view-load :
      (addr b : Address)
      → Coherent s
      → account_view d s.db s.block_number (load_account s addr).1 b ≡ account_at s b
  unfolding load_account
  account_view-load addr b h =
      grind (arith, h.account_level.at addr, lookup-insert {V = Account} addr b)

  pub lookup-load :
      (addr b : Address) (acc : Account)
      → lookup b s.accounts ≡ some acc
      → lookup b (load_account s addr).1 ≡ some acc
  unfolding load_account
  lookup-load addr b acc e = grind (arith, lookup-insert {V = Account} addr b)

pair_discrete : Discrete (Address × Hash)
pair_discrete = hlevel ℕ_discrete

text_injective :
    {d : Deps}
    → IsDeps d
    → (p q : Address × Hash)
    → cache_key d.hex_address d.hex_hash p.0 p.1 ≡ cache_key d.hex_address d.hex_hash q.0 q.1
    → p ≡ q
text_injective laws p q e =
    let both = cache_key-injective laws.address_text laws.hash_text p.0 p.1 q.0 q.1 e in
    λ i. (both.0 i, both.1 i)

module _ {d : Deps} (laws : IsDeps d) (s : PikaStateDb d) where
  pub load_account-Agrees :
      (addr : Address)
      → Coherent s
      → Agrees d.account_lru
          (λ a. a)
          (λ a. answer (State.get_account d s.db s.block_number a))
          (load_account s addr).2
  unfolding load_account
  load_account-Agrees addr h =
      let got = get-Agrees laws.account_cache (λ a. a) _ s.state_cache addr h.account_level in
      let read = λ (a : Address). answer (State.get_account d s.db s.block_number a) in
      grind (
        arith,
        h.account_level,
        got,
        λ (stored : StoredAccount) (e : read addr ≡ some stored).
            add-Agrees laws.account_cache (λ a. a) read (d.account_lru.get s.state_cache addr).1
              ℕ_discrete (λ i j p. p) addr stored e got,
      )

  pub load_slot-Agrees :
      (addr : Address) (key : Hash)
      → Coherent s
      → Agrees d.slot_lru
          (λ p. cache_key d.hex_address d.hex_hash p.0 p.1)
          (λ (p : Address × Hash). answer (State.get_storage d s.db s.block_number p.0 p.1))
          (load_slot s addr key).1
  unfolding load_slot
  load_slot-Agrees addr key h =
      let text = λ (p : Address × Hash). cache_key d.hex_address d.hex_hash p.0 p.1 in
      let read = λ (p : Address × Hash). answer (State.get_storage d s.db s.block_number p.0 p.1) in
      let got =
        get-Agrees laws.slot_cache text read s.storage_cache (text (addr, key)) h.slot_level in
      grind (
        arith,
        h.slot_level,
        got,
        λ (value : Hash) (e : read (addr, key) ≡ some value).
            add-Agrees laws.slot_cache text read
              (d.slot_lru.get s.storage_cache (text (addr, key))).1 pair_discrete
              (text_injective laws) (addr, key) value e got,
      )

  pub load_code-Agrees :
      (code_hash : Hash)
      → Coherent s
      → Agrees d.code_lru (λ h. h) (λ h. answer (State.get_code d s.db h)) (load_code s code_hash).1
  unfolding load_code
  load_code-Agrees code_hash h =
      let read = λ (k : Hash). answer (State.get_code d s.db k) in
      let got = get-Agrees laws.code_cache (λ k. k) read s.code_cache code_hash h.code_level in
      grind (
        arith,
        h.code_level,
        got,
        λ (code : Text) (e : read code_hash ≡ some code).
            add-Agrees laws.code_cache (λ k. k) read (d.code_lru.get s.code_cache code_hash).1
              ℕ_discrete (λ i j p. p) code_hash code e got,
      )
