-- ===== src/State/Read/Results.antt =====
-- What the reads of pkg/state/statedb.go return.
use evm_executor.Prelude.{◌≡◌, ap, ◌∙◌, some, [], lookup, ◌==◌, if◌then◌else◌}
use evm_executor.Deps.{Deps, IsDeps}
use evm_executor.Storage.Ops.{Address, Hash}
use evm_executor.State.Account.{Account}
use evm_executor.State.Db.{PikaStateDb}
use evm_executor.State.Read.{get_account, get_state, get_code}
use evm_executor.State.Read.Spec.{account_at, slot_at, code_of}
use evm_executor.State.Read.Coherent.{
  Coherent, load_account-eq, load_slot-eq, load_code-eq, account_view-load, lookup-load,
  load_account-Agrees, load_slot-Agrees, load_code-Agrees,
}

module _ {d : Deps} (s : PikaStateDb d) where
  -- `getAccount` returns the account written in this block, else the stored one, else a new one,
  -- whichever level answers.
  pub get_account-eq : (addr : Address) → Coherent s → (get_account s addr).0 ≡ account_at s addr
  unfolding get_account
  get_account-eq addr h = load_account-eq s addr h

  -- `GetState` returns the value written in this block, else the stored one, else zero.
  pub get_state-eq :
      (addr : Address) (key : Hash) → Coherent s → (get_state s addr key).0 ≡ slot_at s addr key
  unfolding get_state
  get_state-eq addr key h = load_slot-eq s addr key h

  -- After `getAccount` every account reads as before.
  pub account_at-get_account :
      (addr b : Address) → Coherent s → account_at (get_account s addr).1 b ≡ account_at s b
  unfolding get_account
  account_at-get_account addr b h = account_view-load s addr b h

  pub lookup-get_account :
      (addr b : Address) (acc : Account)
      → lookup b s.accounts ≡ some acc
      → lookup b (get_account s addr).1.accounts ≡ some acc
  unfolding get_account
  lookup-get_account addr b acc e = lookup-load s addr b acc e

  pub get_account-Coherent :
      IsDeps d → (addr : Address) → Coherent s → Coherent (get_account s addr).1
  unfolding get_account
  get_account-Coherent laws addr h = record {
    account_level = load_account-Agrees laws s addr h;
    slot_level = h.slot_level;
    code_level = h.code_level;
  }

  pub get_state-Coherent :
      IsDeps d → (addr : Address) (key : Hash) → Coherent s → Coherent (get_state s addr key).1
  unfolding get_state
  get_state-Coherent laws addr key h = record {
    account_level = h.account_level;
    slot_level = load_slot-Agrees laws s addr key h;
    code_level = h.code_level;
  }

  pub get_code-Coherent : IsDeps d → (addr : Address) → Coherent s → Coherent (get_code s addr).1
  unfolding get_code
  get_code-Coherent laws addr h =
      let h' = get_account-Coherent laws addr h in
      record {
        account_level = h'.account_level;
        slot_level = h'.slot_level;
        code_level =
            load_code-Agrees laws (get_account s addr).1 (get_account s addr).0.code_hash h';
      }

  -- `GetCode` returns no code for an account without a code hash, and else the code under the hash:
  -- of this block, else the stored one, else none.
  pub get_code-eq :
      IsDeps d
      → (addr : Address) → Coherent s
      → (get_code s addr).0
        ≡ (let hash = (account_at s addr).code_hash in if hash == 0 then [] else code_of s hash)
  unfolding get_code get_account
  get_code-eq laws addr h =
      let s' = (get_account s addr).1 in
      load_code-eq s' (get_account s addr).0.code_hash (get_account-Coherent laws addr h)
      ∙ ap (λ (a : Account). if a.code_hash == 0 then [] else code_of s a.code_hash)
          (get_account-eq addr h)
