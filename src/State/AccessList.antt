-- ===== src/State/AccessList.antt =====
-- `AccessList` of pkg/state/account.go: each address has an index into `slots`, where its set of
-- storage slots stands. `none` is a panic, an index out of range.
pub mod Valid
pub mod Joins
pub mod Tuples
pub mod Prepared
pub mod Copies
use evm_executor.Prelude.{
  ℕ, Bool, true, false, Option, none, some, List, [], ◌∷◌, ◌++◌, Map, lookup, insert, delete, has,
  keys, length, get_elem?, set, if◌then◌else◌,
}
use evm_executor.Storage.Ops.{Address, Hash}

pub record AccessList : Type 0 where
  pub addresses : Map ℕ
  pub slots : List (Map (Unit {0}))

-- `newAccessList`
abbrev pub new_access_list : AccessList
new_access_list = record { addresses = []; slots = [] }

-- `AddAddress`: the flag says whether the address is new
unfoldable pub add_address : AccessList → Address → AccessList × Bool
add_address a address = elim (lookup address a.addresses) [
  | some _ ↦ (a, false)
  | none ↦ (
    record a {
      addresses = insert address (length a.slots) a.addresses;
      slots = a.slots ++ [] ∷ [];
    },
    true,
  )
]

-- The end of `AddSlot`, at the index of the address.
unfoldable pub add_slot_at : AccessList → Bool → ℕ → Hash → Option (AccessList × Bool × Bool)
add_slot_at a addr_present idx slot = elim (get_elem? a.slots idx) [
  | none ↦ none
  | some m ↦
      if has slot m
      then some (a, addr_present, false)
      else some (record a { slots = set a.slots idx (insert slot tt m) }, addr_present, true)
]

-- `AddSlot`: the flags are the source's `addrPresent` and whether the slot is new
unfoldable pub add_slot : AccessList → Address → Hash → Option (AccessList × Bool × Bool)
add_slot a address slot = elim (lookup address a.addresses) [
  | some idx ↦ add_slot_at a true idx slot
  | none ↦
      add_slot_at
        (record a {
          addresses = insert address (length a.slots) a.addresses;
          slots = a.slots ++ [] ∷ [];
        })
        false (length a.slots) slot
]

unfoldable pub contains_address : AccessList → Address → Bool
contains_address a address = has address a.addresses

-- `Contains`
unfoldable pub contains : AccessList → Address → Hash → Option (Bool × Bool)
contains a address slot = elim (lookup address a.addresses) [
  | none ↦ some (false, false)
  | some idx ↦ elim (get_elem? a.slots idx) [ none ↦ none | some m ↦ some (true, has slot m) ]
]

unfoldable pub delete_address : AccessList → Address → AccessList
delete_address a address = record a { addresses = delete address a.addresses }

unfoldable pub delete_slot : AccessList → Address → Hash → Option AccessList
delete_slot a address slot = elim (lookup address a.addresses) [
  | none ↦ some a
  | some idx ↦ elim (get_elem? a.slots idx) [
    | none ↦ none
    | some m ↦ some (record a { slots = set a.slots idx (delete slot m) })
  ]
]

-- `ToAccessList`, in the order in which the maps are walked: a tuple for each address with its slots
unfoldable pub tuples_from : AccessList → Map ℕ → Option (List (Address × List Hash))
tuples_from a [] = some []
tuples_from a ((addr, idx) ∷ rest) = elim (get_elem? a.slots idx) [
  | none ↦ none
  | some m ↦ elim (tuples_from a rest) [
    | none ↦ none
    | some entries ↦ some ((addr, keys m) ∷ entries)
  ]
]

unfoldable pub to_access_list : AccessList → Option (List (Address × List Hash))
to_access_list a = tuples_from a a.addresses

-- The inner loop of `Copy`, over the slots of one address.
unfoldable pub copy_slots : AccessList → ℕ → List Hash → Option AccessList
copy_slots cp idx [] = some cp
copy_slots cp idx (slot ∷ rest) = elim (get_elem? cp.slots idx) [
  | none ↦ none
  | some m ↦ copy_slots (record cp { slots = set cp.slots idx (insert slot tt m) }) idx rest
]

-- The outer loop of `Copy`, over the addresses in the order in which the map is walked.
unfoldable pub copy_from : AccessList → AccessList → Map ℕ → Option AccessList
copy_from a cp [] = some cp
copy_from a cp ((addr, idx) ∷ rest) = elim (get_elem? a.slots idx) [
  | none ↦ none
  | some m ↦
      elim (copy_slots
        (record { addresses = insert addr idx cp.addresses; slots = cp.slots ++ [] ∷ [] }) idx
        (keys m)) [ none ↦ none | some cp' ↦ copy_from a cp' rest ]
]

-- `Copy`
unfoldable pub copy : AccessList → Option AccessList
copy a = copy_from a new_access_list a.addresses
