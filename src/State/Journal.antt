-- ===== src/State/Journal.antt =====
-- The journal of pkg/state/account.go: its entries, and the map of the dirty accounts. How an entry
-- is undone stands in State/Undo.antt.
pub mod Dirties
use evm_executor.Prelude.{
  ℕ, ◌+◌, ◌-◌, Bool, Option, none, some, List, [], ◌∷◌, ◌++◌, Map, insert, has, length,
  if◌then◌else◌,
}
use evm_executor.Prelude.Int.{ℤ}
use evm_executor.Storage.Redis.{Text}
use evm_executor.Storage.Ops.{Address, Hash}
use evm_executor.State.Account.{Account}

-- `journalEntry`, with a constructor for each type that implements it.
pub data Entry : Type 0 where
  create_object_change : Address → Entry
  reset_object_change : Account → Address → Entry
  suicide_change : Address → Bool → Option ℤ → Entry
  balance_change : Address → ℤ → Entry
  nonce_change : Address → ℕ → Entry
  storage_change : Address → Hash → Hash → Entry
  code_change : Address → Text → Hash → Entry
  refund_change : ℕ → Entry
  add_log_change : Hash → Entry
  add_preimage_change : Hash → Entry
  touch_change : Address → Entry
  access_list_add_account_change : Address → Entry
  access_list_add_slot_change : Address → Hash → Entry

unfoldable pub dirtied : Entry → Option Address
dirtied (create_object_change account) = some account
dirtied (reset_object_change prev addr) = some addr
dirtied (suicide_change account prev prevbalance) = some account
dirtied (balance_change account prev) = some account
dirtied (nonce_change account prev) = some account
dirtied (storage_change account key prevalue) = some account
dirtied (code_change account prevcode prevhash) = some account
dirtied (refund_change prev) = none
dirtied (add_log_change txhash) = none
dirtied (add_preimage_change hash) = none
dirtied (touch_change account) = some account
dirtied (access_list_add_account_change address) = none
dirtied (access_list_add_slot_change address slot) = none

pub record Journal : Type 0 where
  pub entries : List Entry
  pub dirties : Map ℕ

-- `newJournal`
abbrev pub new_journal : Journal
new_journal = record { entries = []; dirties = [] }

-- `dirties[*addr] = i`, if the entry dirties an account
abbrev pub note_dirty : Option Address → ℕ → Map ℕ → Map ℕ
note_dirty none i m = m
note_dirty (some addr) i m = insert addr i m

-- `append`
unfoldable pub append : Journal → Entry → Journal
append j entry =
    let entries = j.entries ++ entry ∷ [] in
    record {
      entries = entries;
      dirties = note_dirty (dirtied entry) (length entries - 1) j.dirties;
    }

-- The loop that rebuilds `dirties`, from index `i` on.
unfoldable pub rebuild : ℕ → List Entry → Map ℕ → Map ℕ
rebuild i [] m = m
rebuild i (entry ∷ rest) m = rebuild (i + 1) rest (note_dirty (dirtied entry) i m)

-- The end of `revert`, when the entries from `snapshot` on have been undone: only the first ones
-- are kept, and `dirties` is built anew.
unfoldable pub truncate : List Entry → Journal
truncate kept = record { entries = kept; dirties = rebuild 0 kept [] }

-- `dirty`
unfoldable pub dirty : Journal → Address → Journal
dirty j addr =
    if has addr j.dirties
    then j
    else record j { dirties = insert addr (length j.entries) j.dirties }
