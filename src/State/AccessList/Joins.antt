-- ===== src/State/AccessList/Joins.antt =====
-- Lists of tuples of an address and its slots, and the loops of `Prepare` (pkg/state/statedb.go) that
-- add them to an access list of pkg/state/account.go.
use evm_executor.Prelude.{
  ℕ, ◌≡◌, refl, ap, Bool, true, false, ◌&&◌, ◌||◌, some, List, [], ◌∷◌, lookup, arith, ◌==◌,
  Option-cases, inl, inr,
}
use evm_executor.Storage.Ops.{Address, Hash}
use evm_executor.State.AccessList.{AccessList, new_access_list, add_address, contains_address}
use evm_executor.State.Write.{add_addresses, add_slots, add_tuples}
use evm_executor.State.AccessList.Valid.{
  IsValid, extend-IsValid, slot_in, slot_in-extend, contains_address-extend, present_already,
  add_slot-Adds,
}

unfoldable pub member : ℕ → List ℕ → Bool
member y [] = false
member y (x ∷ xs) = x == y || member y xs

-- Whether a tuple names the address, and whether one names the slot with it.
unfoldable pub named : List (Address × List Hash) → Address → Bool
named [] y = false
named ((x, _) ∷ rest) y = x == y || named rest y

unfoldable pub listed : List (Address × List Hash) → Address → Hash → Bool
listed [] y j = false
listed ((x, ks) ∷ rest) y j = (x == y && member j ks) || listed rest y j

-- The list `b` is valid, and is `a` with these addresses and slots, and nothing else, added.
pub record Joins (a b : AccessList) (names : Address → Bool) (slots : Address → Hash → Bool)
    : Type 0 where
  pub valid : IsValid b
  pub names_join : (y : Address) → contains_address b y ≡ (contains_address a y || names y)
  pub slots_join : (y : Address) (j : Hash) → slot_in b y j ≡ (slot_in a y j || slots y j)

pub Joins-trans :
    {a b c : AccessList} {m n : Address → Bool} {s t : Address → Hash → Bool}
    → Joins a b m s
    → Joins b c n t
    → Joins a c (λ y. m y || n y) (λ y j. s y j || t y j)
Joins-trans p q = record {
  valid = q.valid;
  names_join = λ y. ground (arith, p.names_join y, q.names_join y);
  slots_join = λ y j. ground (arith, p.slots_join y j, q.slots_join y j);
}

-- `AddAddress` adds its address and no slot.
pub add_address-Joins :
    (a : AccessList) (x : Address)
    → IsValid a
    → Joins a (add_address a x).0 (λ y. x == y) (λ y j. false)
unfolding add_address
add_address-Joins a x v = elim (Option-cases (lookup x a.addresses)) [
  | inl new ↦
      rw (new, add_address)
        (record {
          valid = extend-IsValid a x v;
          names_join = λ y. ground (arith, contains_address-extend a x y);
          slots_join = λ y j. ground (arith, slot_in-extend a x v new y j);
        })
  | inr (idx, old) ↦
      rw (old, add_address)
        (record {
          valid = v;
          names_join = λ y. ground (arith, present_already a x y idx old);
          slots_join = λ y j. ground arith;
        })
]

pub new_access_list-empty : (y : Address) → contains_address new_access_list y ≡ false
unfolding contains_address lookup
new_access_list-empty y = refl

pub new_access_list-slotless : (y : Address) (j : Hash) → slot_in new_access_list y j ≡ false
unfolding slot_in lookup
new_access_list-slotless y j = refl

-- The loop over the slots of a tuple adds them to an address that the list holds.
add_slots-Joins :
    (a : AccessList) (x : Address) (ks : List Hash)
    → IsValid a
    → contains_address a x ≡ true
    → (b : AccessList) × (add_slots a x ks ≡ some b)
      × Joins a b (λ y. false) (λ y j. x == y && member j ks)
unfolding add_slots member
add_slots-Joins a x [] v e = (
  a,
  refl,
  record { valid = v; names_join = λ y. ground arith; slots_join = λ y j. ground arith },
)
add_slots-Joins a x (k ∷ ks) v e =
    let (r, added, adds) = add_slot-Adds a x k v in
    let (b, rest, joins) = add_slots-Joins r.0 x ks adds.valid (ground (arith, adds.addresses x)) in
    (
      b,
      rw (added, add_slots) rest,
      record {
        valid = joins.valid;
        names_join = λ y.
            ground (
              arith,
              joins.names_join y,
              adds.addresses y,
              ap (contains_address a) {x = x} {y = y},
            );
        slots_join = λ y j. ground (arith, joins.slots_join y j, adds.slots y j);
      },
    )

-- The loop over the tuples adds exactly what they name and list.
pub add_tuples-Joins :
    (a : AccessList) (ts : List (Address × List Hash))
    → IsValid a
    → (b : AccessList) × (add_tuples a ts ≡ some b) × Joins a b (named ts) (listed ts)
unfolding add_tuples named listed
add_tuples-Joins a [] v = (
  a,
  refl,
  record { valid = v; names_join = λ y. ground arith; slots_join = λ y j. ground arith },
)
add_tuples-Joins a ((x, ks) ∷ ts) v =
    let first = add_address-Joins a x v in
    let (b, second, joins) =
      add_slots-Joins (add_address a x).0 x ks first.valid (ground (arith, first.names_join x)) in
    let (c, rest, others) = add_tuples-Joins b ts joins.valid in
    let all = Joins-trans (Joins-trans first joins) others in
    (
      c,
      rw (second, add_tuples) rest,
      record {
        valid = all.valid;
        names_join = λ y. ground (arith, all.names_join y);
        slots_join = λ y j. ground (arith, all.slots_join y j);
      },
    )

pub add_addresses-Joins :
    (a : AccessList) (xs : List Address)
    → IsValid a
    → Joins a (add_addresses a xs) (λ y. member y xs) (λ y j. false)
unfolding add_addresses member
add_addresses-Joins a [] v = record {
  valid = v;
  names_join = λ y. ground arith;
  slots_join = λ y j. ground arith;
}
add_addresses-Joins a (x ∷ xs) v =
    let first = add_address-Joins a x v in
    let all = Joins-trans first (add_addresses-Joins (add_address a x).0 xs first.valid) in
    record {
      valid = all.valid;
      names_join = λ y. ground (arith, all.names_join y);
      slots_join = λ y j. ground (arith, all.slots_join y j);
    }
