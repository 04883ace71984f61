-- ===== src/Tests/AccessLists.antt =====
-- The theorems on whole access lists at concrete inputs: account 5 has the index 0 and the slot 1,
-- account 6 the index 1 and the slot 2.
use evm_executor.Prelude.{
  ◌≡◌, refl, true, none, some, List, [], ◌∷◌, Map, lookup, has, Distinct, arith,
}
use evm_executor.Storage.Ops.{Address, Hash}
use evm_executor.State.AccessList.{AccessList, new_access_list, contains, to_access_list, copy}
use evm_executor.State.AccessList.Valid.{IsValid}
use evm_executor.State.AccessList.Tuples.{add_tuples-to_access_list}
use evm_executor.State.AccessList.Joins.{listed, Joins}
use evm_executor.State.AccessList.Prepared.{is_given, prepare-Joins}
use evm_executor.State.AccessList.Copies.{IsInOrder, copy-ordered, copy_panics}
use evm_executor.State.Db.{PikaStateDb, fresh}
use evm_executor.State.Write.{add_tuples, prepare}
use evm_executor.Tests.World.{world}

abbrev entries : List (Map (Unit {0}))
entries = ((1, tt) ∷ []) ∷ ((2, tt) ∷ []) ∷ []

abbrev two : AccessList
two = record { addresses = (5, 0) ∷ (6, 1) ∷ []; slots = entries }

two-IsValid : IsValid two
unfolding lookup
two-IsValid = record { in_range = λ x i e. ground arith; unshared = λ x y i e f. ground arith }

two-Distinct : Distinct two.addresses
unfolding lookup
two-Distinct = (refl, (refl, tt))

add_tuples-to_access_list_example :
    (r : List (Address × List Hash)) × (b : AccessList) × (to_access_list two ≡ some r)
    × (add_tuples new_access_list r ≡ some b)
    × ((y : Address) (j : Hash) → contains b y j ≡ contains two y j)
add_tuples-to_access_list_example = add_tuples-to_access_list two two-IsValid two-Distinct

abbrev state : PikaStateDb world
state = record (fresh world (λ _. none) 7 (λ _. none) (λ _. none) (λ _. none)) { access_list = two }

prepare-Joins_example :
    (t : PikaStateDb world) × (prepare state 8 (some 5) (1 ∷ 2 ∷ []) ((6, 3 ∷ []) ∷ []) ≡ some t)
    × Joins two t.access_list
        (is_given 8 (some 5) (1 ∷ 2 ∷ []) ((6, 3 ∷ []) ∷ []))
        (listed ((6, 3 ∷ []) ∷ []))
prepare-Joins_example = prepare-Joins state 8 (some 5) (1 ∷ 2 ∷ []) ((6, 3 ∷ []) ∷ []) two-IsValid

two-IsInOrder : IsInOrder 0 two.addresses
unfolding IsInOrder
two-IsInOrder = (refl, (refl, tt))

copy-ordered_example :
    (b : AccessList) × (copy two ≡ some b)
    × ((y : Address) (j : Hash) → contains b y j ≡ contains two y j)
copy-ordered_example = copy-ordered two two-IsValid two-Distinct two-IsInOrder

-- The same list, walked the other way round.
abbrev turned : AccessList
turned = record { addresses = (6, 1) ∷ (5, 0) ∷ []; slots = entries }

slot-inside : has 2 ((2, tt {0}) ∷ []) ≡ true
unfolding lookup
slot-inside = refl

copy_panics_example : copy turned ≡ none
copy_panics_example =
    copy_panics turned 6 1 ((5, 0) ∷ []) ((2, tt) ∷ []) 2 refl (omega arith) refl slot-inside
