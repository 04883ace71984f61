-- ===== src/State/AccessList/Tuples.antt =====
-- `ToAccessList` of pkg/state/account.go.
use evm_executor.Prelude.{
  ℕ, ◌≡◌, refl, ap, sym, ◌∙◌, ◌&&◌, some, List, [], ◌∷◌, Map, lookup, has, keys, Distinct, arith,
}
use evm_executor.Storage.Ops.{Address, Hash}
use evm_executor.State.AccessList.{
  AccessList, new_access_list, contains, contains_address, tuples_from, to_access_list,
}
use evm_executor.State.Write.{add_tuples}
use evm_executor.State.AccessList.Valid.{
  IsValid, new_access_list-IsValid, contains-eq, slot_in-at, slot_in, get_elem?-some,
}
use evm_executor.State.AccessList.Joins.{
  member, named, listed, add_tuples-Joins, new_access_list-empty, new_access_list-slotless,
}

pub member-has : (j : Hash) (m : Map (Unit {0})) → member j (keys m) ≡ has j m
unfolding member lookup
member-has j [] = refl
member-has j ((k, _) ∷ m) = ground (arith, member-has j m)

module _ (a : AccessList) (v : IsValid a) where
  tuples_from-some :
      (entries : Map ℕ)
      → ((y : Address) (i : ℕ) → lookup y entries ≡ some i → lookup y a.addresses ≡ some i)
      → Distinct entries
      → (r : List (Address × List Hash)) × (tuples_from a entries ≡ some r)
        × ((y : Address) → named r y ≡ has y entries)
        × ((y : Address) (j : Hash) → listed r y j ≡ (has y entries && slot_in a y j))
  unfolding tuples_from named listed lookup
  tuples_from-some [] sub h = ([], refl, λ y. refl, λ y j. refl)
  tuples_from-some ((x, idx) ∷ entries) sub (new, h) =
      let at : lookup x a.addresses ≡ some idx = sub x idx (ground arith) in
      let (m, found) = get_elem?-some a.slots idx (v.in_range x idx at) in
      let own : (j : Hash) → slot_in a x j ≡ has j m = λ j. slot_in-at a x idx m j at found in
      let (r, made, names, slots) =
        tuples_from-some entries
          (λ y i e.
            sub y i (ground (arith, e, new, ap (λ (z : ℕ). lookup z entries) {x = x} {y = y})))
          h in
      (
        (x, keys m) ∷ r,
        rw (found, tuples_from) (rw made refl),
        λ y. ground (arith, names y),
        λ y j. ground (
          arith,
          slots y j,
          own j,
          member-has j m,
          ap (λ (z : ℕ). slot_in a z j) {x = x} {y = y},
        ),
      )

-- On a valid access list whose map of addresses holds no key twice, ToAccessList does not panic,
-- whatever the order of the walks; its tuples name exactly the addresses of the list, and each slot
-- with exactly the addresses that it is in the list for.
to_access_list-some :
    (a : AccessList)
    → IsValid a
    → Distinct a.addresses
    → (r : List (Address × List Hash)) × (to_access_list a ≡ some r)
      × ((y : Address) → named r y ≡ contains_address a y)
      × ((y : Address) (j : Hash) → listed r y j ≡ slot_in a y j)
unfolding to_access_list contains_address slot_in
to_access_list-some a v h =
    let (r, made, names, slots) = tuples_from-some a v a.addresses (λ y i e. e) h in
    (r, made, names, λ y j. slots y j ∙ ground arith)

-- On a valid access list whose map of addresses holds no key twice, ToAccessList does not panic,
-- whatever the order in which the maps are walked, and the loop of Prepare, from a new access list,
-- makes of its tuples a list, without a panic, for which Contains answers every question as for the
-- first.
pub add_tuples-to_access_list :
    (a : AccessList)
    → IsValid a
    → Distinct a.addresses
    → (r : List (Address × List Hash)) × (b : AccessList) × (to_access_list a ≡ some r)
      × (add_tuples new_access_list r ≡ some b)
      × ((y : Address) (j : Hash) → contains b y j ≡ contains a y j)
add_tuples-to_access_list a v h =
    let (r, made, names, slots) = to_access_list-some a v h in
    let (b, added, joins) = add_tuples-Joins new_access_list r new_access_list-IsValid in
    let same_name : (y : Address) → contains_address b y ≡ contains_address a y =
      λ y. ground (arith, joins.names_join y, new_access_list-empty y, names y) in
    let same_slot : (y : Address) (j : Hash) → slot_in b y j ≡ slot_in a y j =
      λ y j. ground (arith, joins.slots_join y j, new_access_list-slotless y j, slots y j) in
    (
      r,
      b,
      made,
      added,
      λ y j.
          contains-eq b y j joins.valid
          ∙ (λ i. some (same_name y i, same_slot y j i))
          ∙ sym (contains-eq a y j v),
    )
