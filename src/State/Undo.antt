-- ===== src/State/Undo.antt =====
-- The `revert` methods of the journal entries of pkg/state/account.go, and the journal's own
-- `revert`. `none` is a panic: an index or a slice bound out of range.
use evm_executor.Prelude.{
  ℕ, ◌+◌, ◌-◌, ◌%◌, Bool, true, false, Option, none, some, List, [], ◌∷◌, Map, lookup, insert,
  delete, length, take, drop, ltb, if◌then◌else◌,
}
use evm_executor.Prelude.Int.{ℤ}
use evm_executor.Deps.{Deps}
use evm_executor.Storage.Ops.{Address, Hash}
use evm_executor.State.Account.{Account}
use evm_executor.State.AccessList.{delete_address, delete_slot}
use evm_executor.State.Journal.{
  Entry, Journal, create_object_change, reset_object_change, suicide_change, balance_change,
  nonce_change, storage_change, code_change, refund_change, add_log_change, add_preimage_change,
  touch_change, access_list_add_account_change, access_list_add_slot_change, truncate,
}
use evm_executor.State.Db.{Log, PikaStateDb, word}
use evm_executor.State.Write.{write_slot, logs_of}

-- `if acc, ok := accounts[addr]; ok { … }`
unfoldable pub update_account : Map Account → Address → (Account → Account) → Map Account
update_account accounts addr f = elim (lookup addr accounts) [
  | none ↦ accounts
  | some acc ↦ insert addr (f acc) accounts
]

-- The logs of a transaction without the last one; of none at all the slice bound is -1.
unfoldable pub drop_log : Map (List Log) → Hash → List Log → Option (Map (List Log))
drop_log logs txhash [] = none
drop_log logs txhash (l ∷ []) = some (delete txhash logs)
drop_log logs txhash (l ∷ l' ∷ rest) =
    let own = l ∷ l' ∷ rest in some (insert txhash (take (length own - 1) own) logs)

-- `suicides[addr] = prev`, which a false flag then deletes
abbrev pub reset_flag : Map Bool → Address → Bool → Map Bool
reset_flag suicides addr true = insert addr true suicides
reset_flag suicides addr false = delete addr (insert addr false suicides)

-- `if ch.prevbalance != nil { … }`
abbrev pub reset_balance : Map Account → Address → Option ℤ → Map Account
reset_balance accounts addr none = accounts
reset_balance accounts addr (some prev) =
    update_account accounts addr (λ acc. record acc { balance = prev })

module _ {d : Deps} where
  unfoldable pub undo_entry : Entry → PikaStateDb d → Option (PikaStateDb d)
  undo_entry (create_object_change account) s =
      some (record s { accounts = delete account s.accounts })
  undo_entry (reset_object_change prev addr) s =
      some (record s { accounts = insert addr prev s.accounts })
  undo_entry (suicide_change account prev prevbalance) s = some (record s {
    suicides = reset_flag s.suicides account prev;
    accounts = reset_balance s.accounts account prevbalance;
  })
  undo_entry (balance_change account prev) s = some (record s {
    accounts = update_account s.accounts account (λ acc. record acc { balance = prev });
  })
  undo_entry (nonce_change account prev) s = some (record s {
    accounts = update_account s.accounts account (λ acc. record acc { nonce = prev });
  })
  undo_entry (storage_change account key prevalue) s =
      some (record s { storages = write_slot s.storages account key prevalue })
  undo_entry (code_change account prevcode prevhash) s = some (record s {
    accounts = update_account s.accounts account (λ acc. record acc { code_hash = prevhash });
    codes = insert prevhash prevcode s.codes;
  })
  undo_entry (refund_change prev) s = some (record s { refund = prev })
  undo_entry (add_log_change txhash) s =
      elim (drop_log s.logs txhash (logs_of (lookup txhash s.logs))) [
        | none ↦ none
        | some logs ↦ some (record s { logs = logs; log_size = (s.log_size + word - 1) % word })
      ]
  undo_entry (add_preimage_change hash) s = some (record s { preimages = delete hash s.preimages })
  undo_entry (touch_change account) s = some s
  undo_entry (access_list_add_account_change address) s =
      some (record s { access_list = delete_address s.access_list address })
  undo_entry (access_list_add_slot_change address slot) s =
      elim (delete_slot s.access_list address slot) [
        | none ↦ none
        | some access_list ↦ some (record s { access_list = access_list })
      ]

  abbrev pub undo_next : Entry → Option (PikaStateDb d) → Option (PikaStateDb d)
  undo_next entry none = none
  undo_next entry (some s) = undo_entry entry s

  -- The loop of the journal's `revert`, over the entries from `snapshot` on: the last comes first.
  unfoldable pub undo_entries : List Entry → PikaStateDb d → Option (PikaStateDb d)
  undo_entries [] s = some s
  undo_entries (entry ∷ rest) s = undo_next entry (undo_entries rest s)

  abbrev pub with_journal : Journal → Option (PikaStateDb d) → Option (PikaStateDb d)
  with_journal j none = none
  with_journal j (some s) = some (record s { journal = j })

  -- The journal's `revert`. A bound behind the end of the entries is a panic here; Go's slice panics
  -- behind its capacity only, and the bound of a snapshot is never behind the end.
  unfoldable pub revert : PikaStateDb d → ℕ → Option (PikaStateDb d)
  revert s snapshot =
      let entries = s.journal.entries in
      if ltb (length entries) snapshot
      then none
      else with_journal (truncate (take snapshot entries)) (undo_entries (drop snapshot entries) s)
