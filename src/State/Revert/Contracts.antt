-- ===== src/State/Revert/Contracts.antt =====
-- Undoing `CreateAccount`, `SetCode` and `Suicide`.
use evm_executor.Prelude.{
  ◌≡◌, refl, sym, ◌∙◌, Bool, true, false, none, some, lookup, insert, delete, lookup-insert,
  lookup-delete, arith, Map,
}
use evm_executor.Prelude.Int.{pos}
use evm_executor.Deps.{Deps, IsDeps}
use evm_executor.Storage.Redis.{Text}
use evm_executor.Storage.Ops.{Address}
use evm_executor.State.Account.{Account, new_account}
use evm_executor.State.Journal.{create_object_change, code_change, suicide_change, append}
use evm_executor.State.Db.{PikaStateDb}
use evm_executor.State.Read.{flag, has_suicided, load_account, get_account, get_code}
use evm_executor.State.Read.Coherent.{Coherent}
use evm_executor.State.Read.Results.{get_account-Coherent}
use evm_executor.State.Write.{put_account, create_account, set_code, suicide}
use evm_executor.State.Undo.{update_account, reset_flag, undo_entry}
use evm_executor.State.Revert.Maps.{
  SameAccounts, update-SameAccounts, delete-SameAccounts, SameAccounts-trans,
}
use evm_executor.State.Revert.Restores.{Undoable, Undoable-of_entry, stored_in}
use evm_executor.State.Revert.Accounts.{
  load_account-SameAccounts, get_account-Undoable, account_kept,
}

-- `suicides[addr] = true` is undone by the flag that stood there.
flag-reset_flag :
    (t m : Map Bool) (addr : Address) (prev : Bool) (b : Address)
    → prev ≡ flag m addr
    → flag t b ≡ flag (insert addr true m) b
    → flag (reset_flag t addr prev) b ≡ flag m b
flag-reset_flag t m addr true b e h =
    ground (arith, lookup-insert addr b true t, lookup-insert addr b true m)
flag-reset_flag t m addr false b e h = ground (
  arith,
  lookup-delete addr b (insert addr false t),
  lookup-insert addr b false t,
  lookup-insert addr b true m,
)

module _ {d : Deps} (s : PikaStateDb d) (coherent : Coherent s) (addr : Address) where
  -- The new account of `CreateAccount` is dropped, which restores the old one if it was not loaded.
  new_account-Undoable :
      lookup addr s.accounts ≡ none
      → Undoable s (put_account (get_account s addr).1 (create_object_change addr) addr new_account)
  unfolding get_account append undo_entry
  new_account-Undoable unloaded = Undoable-of_entry s _ (create_object_change addr) refl refl λ t h.
      (
        record t { accounts = delete addr t.accounts },
        refl,
        record {
          same_db = h.same_db;
          same_block = h.same_block;
          accounts =
              delete-SameAccounts addr new_account t.accounts (load_account s addr).1 s.accounts
                unloaded (load_account-SameAccounts s coherent addr) h.accounts;
          slots = h.slots;
          suicided = h.suicided;
          logs = h.logs;
          log_size = h.log_size;
          preimages = h.preimages;
          refund = h.refund;
          access = h.access;
        },
      )

  pub create_account-Undoable : (lookup addr s.accounts ≡ none) → Undoable s (create_account s addr)
  unfolding create_account
  create_account-Undoable unloaded =
      ground (arith, new_account-Undoable unloaded, get_account-Undoable s coherent addr)

  pub suicide-Undoable : Undoable s (suicide s addr).1
  unfolding suicide get_account append undo_entry has_suicided
  suicide-Undoable =
      let acc = (get_account s addr).0 in
      let prev = flag s.suicides addr in
      let f = λ (a : Account). record a { balance = acc.balance } in
      Undoable-of_entry s _ (suicide_change addr prev (some acc.balance)) refl refl λ t h. (
        record t {
          suicides = reset_flag t.suicides addr prev;
          accounts = update_account t.accounts addr f;
        },
        refl,
        record {
          same_db = h.same_db;
          same_block = h.same_block;
          accounts =
              SameAccounts-trans
                (update-SameAccounts addr f (record acc { balance = pos 0 }) t.accounts
                  (load_account s addr).1 (account_kept s coherent addr) h.accounts)
                (load_account-SameAccounts s coherent addr);
          slots = h.slots;
          suicided = λ b. flag-reset_flag t.suicides s.suicides addr prev b refl (h.suicided b);
          logs = h.logs;
          log_size = h.log_size;
          preimages = h.preimages;
          refund = h.refund;
          access = h.access;
        },
      )

  -- `SetCode` loads the account twice.
  set_code_accounts :
      IsDeps d → SameAccounts (stored_in s) (load_account (get_account s addr).1 addr).1 s.accounts
  unfolding get_account
  set_code_accounts laws =
      SameAccounts-trans
        (load_account-SameAccounts (get_account s addr).1
          (get_account-Coherent s laws addr coherent) addr)
        (load_account-SameAccounts s coherent addr)

  pub set_code-Undoable : IsDeps d → (code : Text) → Undoable s (set_code s addr code)
  unfolding set_code get_account get_code append undo_entry
  set_code-Undoable laws code =
      let acc = (get_account s addr).0 in
      let prev_code = (get_code (get_account s addr).1 addr).0 in
      let f = λ (a : Account). record a { code_hash = acc.code_hash } in
      Undoable-of_entry s _ (code_change addr prev_code acc.code_hash) refl refl λ t h. (
        record t {
          codes = insert acc.code_hash prev_code t.codes;
          accounts = update_account t.accounts addr f;
        },
        refl,
        record {
          same_db = h.same_db;
          same_block = h.same_block;
          accounts =
              SameAccounts-trans
                (update-SameAccounts addr f (record acc { code_hash = d.keccak256 code }) t.accounts
                  (load_account (get_account s addr).1 addr).1
                  (account_kept s coherent addr
                    ∙ sym (
                        (load_account-SameAccounts (get_account s addr).1
                            (get_account-Coherent s laws addr coherent) addr).seen
                          addr))
                  h.accounts)
                (set_code_accounts laws);
          slots = h.slots;
          suicided = h.suicided;
          logs = h.logs;
          log_size = h.log_size;
          preimages = h.preimages;
          refund = h.refund;
          access = h.access;
        },
      )
