-- ===== src/State/Write.antt =====
-- The writes of pkg/state/statedb.go: each puts what undoes it on the journal and changes the maps.
-- `none` is a panic of the access list.
use evm_executor.Prelude.{
  ℕ, ◌+◌, ◌-◌, ◌%◌, Bool, true, not, ◌&&◌, Option, none, some, List, [], ◌∷◌, ◌++◌, Map, lookup,
  insert, has, ltb, ◌==◌, if◌then◌else◌,
}
use evm_executor.Prelude.Int.{ℤ, pos, ◌+ℤ◌, ◌-ℤ◌, is_zero}
use evm_executor.Deps.{Deps}
use evm_executor.Storage.Redis.{Text}
use evm_executor.Storage.Ops.{Address, Hash}
use evm_executor.State.Account.{Account, new_account}
use evm_executor.State.AccessList.{AccessList, add_address, add_slot}
use evm_executor.State.Journal.{
  Entry, create_object_change, suicide_change, balance_change, nonce_change, storage_change,
  code_change, refund_change, add_log_change, add_preimage_change, access_list_add_account_change,
  access_list_add_slot_change, append,
}
use evm_executor.State.Db.{Log, PikaStateDb, word}
use evm_executor.State.Read.{get_account, get_code, get_state, has_suicided}

abbrev pub slots_of : Option (Map Hash) → Map Hash
slots_of none = []
slots_of (some m) = m

-- `s.storages[addr][key] = value`, with a new inner map if there is none
unfoldable pub write_slot : Map (Map Hash) → Address → Hash → Hash → Map (Map Hash)
write_slot storages addr key value =
    insert addr (insert key value (slots_of (lookup addr storages))) storages

abbrev pub logs_of : Option (List Log) → List Log
logs_of none = []
logs_of (some ls) = ls

module _ {d : Deps} where
  -- `s.journal.append(entry)`
  abbrev pub record_entry : PikaStateDb d → Entry → PikaStateDb d
  record_entry s entry = record s { journal = append s.journal entry }

  -- The end of the methods that change an account: the journal entry and the new account.
  abbrev pub put_account : PikaStateDb d → Entry → Address → Account → PikaStateDb d
  put_account s entry addr acc = record s {
    journal = append s.journal entry;
    accounts = insert addr acc s.accounts;
  }

  unfoldable pub create_account : PikaStateDb d → Address → PikaStateDb d
  create_account s addr =
      let (acc, s') = get_account s addr in
      if acc.nonce == 0 && is_zero acc.balance && acc.code_hash == 0
      then put_account s' (create_object_change addr) addr new_account
      else s'

  unfoldable pub sub_balance : PikaStateDb d → Address → ℤ → PikaStateDb d
  sub_balance s addr amount =
      let (acc, s') = get_account s addr in
      if is_zero amount
      then s
      else put_account s' (balance_change addr acc.balance) addr
          (record acc { balance = acc.balance -ℤ amount })

  unfoldable pub add_balance : PikaStateDb d → Address → ℤ → PikaStateDb d
  add_balance s addr amount =
      let (acc, s') = get_account s addr in
      if is_zero amount
      then s
      else put_account s' (balance_change addr acc.balance) addr
          (record acc { balance = acc.balance +ℤ amount })

  unfoldable pub set_nonce : PikaStateDb d → Address → ℕ → PikaStateDb d
  set_nonce s addr nonce =
      let (acc, s') = get_account s addr in
      put_account s' (nonce_change addr acc.nonce) addr (record acc { nonce = nonce })

  -- The first `getAccount` and the one inside `GetCode` are two calls.
  unfoldable pub set_code : PikaStateDb d → Address → Text → PikaStateDb d
  set_code s addr code =
      let (acc, s') = get_account s addr in
      let (prev_code, s'') = get_code s' addr in
      let code_hash = d.keccak256 code in
      record s'' {
        journal = append s''.journal (code_change addr prev_code acc.code_hash);
        codes = insert code_hash code s''.codes;
        accounts = insert addr (record acc { code_hash = code_hash }) s''.accounts;
      }

  unfoldable pub set_state : PikaStateDb d → Address → Hash → Hash → PikaStateDb d
  set_state s addr key value =
      let (prev, s') = get_state s addr key in
      if prev == value then s' else record s' {
        journal = append s'.journal (storage_change addr key prev);
        storages = write_slot s'.storages addr key value;
      }

  -- `Suicide`: whether the account was not marked before, and the state
  unfoldable pub suicide : PikaStateDb d → Address → Bool × PikaStateDb d
  suicide s addr =
      let (acc, s') = get_account s addr in
      let prev = has_suicided s' addr in
      (
        not prev,
        record s' {
          journal = append s'.journal (suicide_change addr prev (some acc.balance));
          suicides = insert addr true s'.suicides;
          accounts = insert addr (record acc { balance = pos 0 }) s'.accounts;
        },
      )

  abbrev pub self_destruct : PikaStateDb d → Address → PikaStateDb d
  self_destruct s addr = (suicide s addr).1

  abbrev pub selfdestruct6780 : PikaStateDb d → Address → PikaStateDb d
  selfdestruct6780 s addr = self_destruct s addr

  unfoldable pub add_log : PikaStateDb d → Log → PikaStateDb d
  add_log s log =
      let stamped = record log { tx_hash = s.thash; tx_index = s.tx_index; index = s.log_size } in
      record s {
        journal = append s.journal (add_log_change s.thash);
        logs = insert s.thash (logs_of (lookup s.thash s.logs) ++ stamped ∷ []) s.logs;
        log_size = (s.log_size + 1) % word;
      }

  unfoldable pub add_refund : PikaStateDb d → ℕ → PikaStateDb d
  add_refund s gas = record s {
    journal = append s.journal (refund_change s.refund);
    refund = (s.refund + gas) % word;
  }

  unfoldable pub sub_refund : PikaStateDb d → ℕ → PikaStateDb d
  sub_refund s gas = record s {
    journal = append s.journal (refund_change s.refund);
    refund = if ltb s.refund gas then 0 else s.refund - gas;
  }

  unfoldable pub add_preimage : PikaStateDb d → Hash → Text → PikaStateDb d
  add_preimage s hash preimage = if has hash s.preimages then s else record s {
    journal = append s.journal (add_preimage_change hash);
    preimages = insert hash preimage s.preimages;
  }

  unfoldable pub add_address_to_access_list : PikaStateDb d → Address → PikaStateDb d
  add_address_to_access_list s addr =
      let (access_list, added) = add_address s.access_list addr in
      let s' = record s { access_list = access_list } in
      if added then record_entry s' (access_list_add_account_change addr) else s'

  -- The two conditional journal entries of `AddSlotToAccessList`.
  abbrev pub note_slot : PikaStateDb d → Address → Hash → Bool → Bool → PikaStateDb d
  note_slot s addr slot addr_mod slot_mod =
      let s' = if addr_mod then record_entry s (access_list_add_account_change addr) else s in
      if slot_mod then record_entry s' (access_list_add_slot_change addr slot) else s'

  -- `AddSlotToAccessList`; its `addrMod` and `slotMod` are what `AddSlot` returns
  unfoldable pub add_slot_to_access_list : PikaStateDb d → Address → Hash → Option (PikaStateDb d)
  add_slot_to_access_list s addr slot = elim (add_slot s.access_list addr slot) [
    | none ↦ none
    | some r ↦ some (note_slot (record s { access_list = r.0 }) addr slot r.1 r.2)
  ]

  -- `SetTransientState` is not implemented, and does nothing
  abbrev pub set_transient_state : PikaStateDb d → Address → Hash → Hash → PikaStateDb d
  set_transient_state s addr key value = s

  abbrev pub set_tx_context : PikaStateDb d → Hash → ℕ → PikaStateDb d
  set_tx_context s thash ti = record s { thash = thash; tx_index = ti }

-- The loops of `Prepare` over the precompiles and over the access list of the transaction.
unfoldable pub add_addresses : AccessList → List Address → AccessList
add_addresses a [] = a
add_addresses a (addr ∷ rest) = add_addresses (add_address a addr).0 rest

unfoldable pub add_slots : AccessList → Address → List Hash → Option AccessList
add_slots a addr [] = some a
add_slots a addr (key ∷ rest) = elim (add_slot a addr key) [
  | none ↦ none
  | some r ↦ add_slots r.0 addr rest
]

unfoldable pub add_tuples : AccessList → List (Address × List Hash) → Option AccessList
add_tuples a [] = some a
add_tuples a ((addr, keys) ∷ rest) = elim (add_slots (add_address a addr).0 addr keys) [
  | none ↦ none
  | some a' ↦ add_tuples a' rest
]

abbrev pub optional : Option Address → List Address
optional none = []
optional (some addr) = addr ∷ []

module _ {d : Deps} where
  -- `Prepare`, whose chain rules and coinbase are not used
  unfoldable pub prepare :
      PikaStateDb d
      → Address
      → Option Address
      → List Address
      → List (Address × List Hash)
      → Option (PikaStateDb d)
  prepare s sender dest precompiles tx_accesses =
      elim (add_tuples
        (add_addresses (add_addresses (add_address s.access_list sender).0 (optional dest))
          precompiles)
        tx_accesses) [
          | none ↦ none
          | some access_list ↦
              some (record s { access_list = access_list; thash = 0; tx_index = 0 })
        ]
