-- ===== src/State/Revert/Accounts.antt =====
-- Undoing the methods that change an account.
use evm_executor.Prelude.{ℕ, ◌≡◌, refl, sym, ◌∙◌, some, lookup, Bool-cases, Option-cases, inl, inr}
use evm_executor.Prelude.Int.{ℤ, ◌+ℤ◌, ◌-ℤ◌, is_zero}
use evm_executor.Deps.{Deps}
use evm_executor.Storage.Ops.{Address}
use evm_executor.State.Account.{Account}
use evm_executor.State.Journal.{Entry, balance_change, nonce_change, append}
use evm_executor.State.Db.{PikaStateDb}
use evm_executor.State.Read.{load_account, get_account, get_code}
use evm_executor.State.Read.Spec.{or_else}
use evm_executor.State.Read.Coherent.{Coherent, load_account-eq, account_view-load, lookup-load}
use evm_executor.State.Write.{put_account, sub_balance, add_balance, set_nonce}
use evm_executor.State.Undo.{update_account, undo_entry}
use evm_executor.State.Revert.Maps.{
  SameAccounts, update-SameAccounts, SameAccounts-trans, SameAccess-refl,
}
use evm_executor.State.Revert.Restores.{
  Restores, Undoable, Undoable-refl, Undoable-of_read, Undoable-of_entry, stored_in,
}

module _ {d : Deps} (s : PikaStateDb d) (coherent : Coherent s) (addr : Address) where
  pub load_account-SameAccounts : SameAccounts (stored_in s) (load_account s addr).1 s.accounts
  load_account-SameAccounts = record {
    seen = λ b. account_view-load s addr b coherent;
    loaded = λ b e. elim (Option-cases (lookup b s.accounts)) [
      | inl none_before ↦ none_before
      | inr (acc, before) ↦ cc (lookup-load s addr b acc before)
    ];
  }

  get_account-Restores : Restores (get_account s addr).1 s
  unfolding get_account
  get_account-Restores = record {
    same_db = refl;
    same_block = refl;
    accounts = load_account-SameAccounts;
    slots = λ a k. refl;
    suicided = λ a. refl;
    logs = λ h. refl;
    log_size = refl;
    preimages = λ h. refl;
    refund = refl;
    access = SameAccess-refl s.access_list;
  }

  pub get_account-Undoable : Undoable s (get_account s addr).1
  unfolding get_account
  get_account-Undoable = Undoable-of_read s (get_account s addr).1 refl refl get_account-Restores

  pub get_code-Undoable : Undoable s (get_code s addr).1
  unfolding get_account get_code
  get_code-Undoable = Undoable-of_read s (get_code s addr).1 refl refl (record {
    same_db = refl;
    same_block = refl;
    accounts = load_account-SameAccounts;
    slots = λ a k. refl;
    suicided = λ a. refl;
    logs = λ h. refl;
    log_size = refl;
    preimages = λ h. refl;
    refund = refl;
    access = SameAccess-refl s.access_list;
  })

  -- What `getAccount` returned is what the map shows after it.
  pub account_kept :
      (get_account s addr).0 ≡ or_else (lookup addr (load_account s addr).1) (stored_in s addr)
  unfolding get_account
  account_kept = load_account-eq s addr coherent ∙ sym (account_view-load s addr addr coherent)

  -- An account is written, and the entry's `revert` changes it back by `f`.
  pub put_account-Undoable :
      (entry : Entry) (f : Account → Account) (acc : Account)
      → f acc ≡ (get_account s addr).0
      → ((t : PikaStateDb d)
          → undo_entry entry t ≡ some (record t { accounts = update_account t.accounts addr f }))
      → Undoable s (put_account (get_account s addr).1 entry addr acc)
  unfolding get_account append
  put_account-Undoable entry f acc back undoes = Undoable-of_entry s _ entry refl refl λ t h. (
    record t { accounts = update_account t.accounts addr f },
    undoes t,
    record {
      same_db = h.same_db;
      same_block = h.same_block;
      accounts =
          SameAccounts-trans
            (update-SameAccounts addr f acc t.accounts (load_account s addr).1 (back ∙ account_kept)
              h.accounts)
            load_account-SameAccounts;
      slots = h.slots;
      suicided = h.suicided;
      logs = h.logs;
      log_size = h.log_size;
      preimages = h.preimages;
      refund = h.refund;
      access = h.access;
    },
  )

  pub set_nonce-Undoable : (nonce : ℕ) → Undoable s (set_nonce s addr nonce)
  unfolding set_nonce undo_entry
  set_nonce-Undoable nonce =
      let old = (get_account s addr).0 in
      put_account-Undoable (nonce_change addr old.nonce) (λ a. record a { nonce = old.nonce })
        (record old { nonce = nonce }) refl (λ t. refl)

  -- The two methods that change a balance.
  set_balance-Undoable :
      (balance : ℤ)
      → let old = (get_account s addr).0 in
        Undoable s (
          put_account
            (get_account s addr).1
            (balance_change addr old.balance)
            addr
            (record old { balance = balance }))
  unfolding undo_entry
  set_balance-Undoable balance =
      let old = (get_account s addr).0 in
      put_account-Undoable (balance_change addr old.balance)
        (λ a. record a { balance = old.balance }) (record old { balance = balance }) refl
        (λ t. refl)

  pub sub_balance-Undoable : (amount : ℤ) → Undoable s (sub_balance s addr amount)
  unfolding sub_balance
  sub_balance-Undoable amount = elim (Bool-cases (is_zero amount)) [
    | inl nothing ↦ rw (nothing, sub_balance) (Undoable-refl s)
    | inr some_amount ↦
        rw (some_amount, sub_balance)
          (set_balance-Undoable ((get_account s addr).0.balance -ℤ amount))
  ]

  pub add_balance-Undoable : (amount : ℤ) → Undoable s (add_balance s addr amount)
  unfolding add_balance
  add_balance-Undoable amount = elim (Bool-cases (is_zero amount)) [
    | inl nothing ↦ rw (nothing, add_balance) (Undoable-refl s)
    | inr some_amount ↦
        rw (some_amount, add_balance)
          (set_balance-Undoable ((get_account s addr).0.balance +ℤ amount))
  ]
