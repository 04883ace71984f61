-- ===== src/State/AccessList/Valid.antt =====
-- The access list of pkg/state/account.go as a set of addresses and of slots. It is valid if every
-- index is in range and no index is shared.
use native.Mathlib.Decide.{ℕ_discrete}
use evm_executor.Prelude.{
  ℕ, zero, suc, ◌<◌, ◌≡◌, ◌≢◌, refl, ap, sym, ◌∙◌, Bool, true, false, not, ◌&&◌, ◌||◌, Option, none,
  some, List, [], ◌∷◌, ◌++◌, Map, lookup, insert, has, lookup-nil, lookup-insert, length, get_elem?,
  set, length-append, length-set, get_elem?-append, get_elem?-length, get_elem?-set_self,
  get_elem?-set_ne, arith, ◌==◌, Option-cases, inl, inr, Bool-cases,
}
use evm_executor.Storage.Ops.{Address, Hash}
use evm_executor.State.AccessList.{
  AccessList, new_access_list, add_address, add_slot, add_slot_at, contains_address, contains,
}

pub record IsValid (a : AccessList) : Type 0 where
  pub in_range : (x : Address) (i : ℕ) → lookup x a.addresses ≡ some i → i < length a.slots
  pub unshared :
      (x y : Address) (i : ℕ)
      → lookup x a.addresses ≡ some i
      → lookup y a.addresses ≡ some i
      → x ≡ y

pub new_access_list-IsValid : IsValid new_access_list
new_access_list-IsValid = record {
  in_range = λ x i e. cc (lookup-nil {V = ℕ} x);
  unshared = λ x y i e f. cc (lookup-nil {V = ℕ} x);
}

-- A new address at the end, with no slots.
abbrev pub extend : AccessList → Address → AccessList
extend a x = record {
  addresses = insert x (length a.slots) a.addresses;
  slots = a.slots ++ [] ∷ [];
}

pub extend-IsValid : (a : AccessList) (x : Address) → IsValid a → IsValid (extend a x)
extend-IsValid a x v = record {
  in_range = λ y i e. ground (
    arith,
    lookup-insert x y (length a.slots) a.addresses,
    v.in_range y i,
    length-append {0} a.slots ([] ∷ []),
  );
  unshared = λ y z i e f. ground (
    arith,
    lookup-insert x y (length a.slots) a.addresses,
    lookup-insert x z (length a.slots) a.addresses,
    v.in_range y i,
    v.in_range z i,
    v.unshared y z i,
  );
}

pub add_address-IsValid : (a : AccessList) (x : Address) → IsValid a → IsValid (add_address a x).0
unfolding add_address
add_address-IsValid a x v = ground (arith, v, extend-IsValid a x v)

some_eq : {i j : ℕ} → ◌≡◌ {A = Option ℕ} (some i) (some j) → i ≡ j
some_eq e = cc

-- Whether a slot is in the set of its address.
unfoldable pub slot_in : AccessList → Address → Hash → Bool
slot_in a y j = elim (lookup y a.addresses) [
  | none ↦ false
  | some i ↦ elim (get_elem? a.slots i) [ none ↦ false | some m ↦ has j m ]
]

pub get_elem?-some :
    (xs : List (Map (Unit {0}))) (i : ℕ)
    → i < length xs
    → (m : Map (Unit {0})) × (get_elem? xs i ≡ some m)
get_elem?-some [] i h = absurd (omega arith)
get_elem?-some (x ∷ xs) zero h = (x, refl)
get_elem?-some (x ∷ xs) (suc i) h = get_elem?-some xs i (omega arith)

-- `Contains` does not panic, and answers for the two sets.
pub contains-eq :
    (a : AccessList) (y : Address) (j : Hash)
    → IsValid a
    → contains a y j ≡ some (contains_address a y, slot_in a y j)
unfolding contains contains_address slot_in
contains-eq a y j v = elim (Option-cases (lookup y a.addresses)) [
  | inl e ↦ ground arith
  | inr (i, e) ↦ let (m, found) = get_elem?-some a.slots i (v.in_range y i e) in ground arith
]

module _ (a : AccessList) (v : IsValid a) (x : Address) (k : Hash) where
  module _ (idx : ℕ) (at : lookup x a.addresses ≡ some idx) (m : Map (Unit {0}))
      (found : get_elem? a.slots idx ≡ some m) where
    -- The slot joins the set of its address, and no other set changes.
    slot_in-set :
        (y : Address) (j : Hash)
        → slot_in (record a { slots = set a.slots idx (insert k tt m) }) y j
          ≡ ((x == y && k == j) || slot_in a y j)
    unfolding slot_in
    slot_in-set y j = elim (Option-cases (lookup y a.addresses)) [
      | inl e ↦ ground (arith, ap (λ (z : Address). lookup z a.addresses) {x = x} {y = y})
      | inr (i, e) ↦ elim (ℕ_discrete i idx) [
        | yes same ↦
            let here : x ≡ y = v.unshared x y idx at (e ∙ ap some same) in
            let own : get_elem? (set a.slots idx (insert k tt m)) i ≡ some (insert k tt m) =
              rw same (get_elem?-set_self a.slots idx (insert k tt m) (v.in_range x idx at)) in
            ground (arith, own, ap (get_elem? a.slots) same, lookup-insert k j tt m)
        | no other ↦
            let elsewhere : x ≢ y = λ p.
              other (some_eq (sym e ∙ ap (λ (z : Address). lookup z a.addresses) (sym p) ∙ at)) in
            ground (arith, get_elem?-set_ne a.slots (insert k tt m) (λ p. other (sym p)), elsewhere)
      ]
    ]

set-IsValid :
    (a : AccessList) (i : ℕ) (m : Map (Unit {0}))
    → IsValid a
    → IsValid (record a { slots = set a.slots i m })
set-IsValid a i m v = record {
  in_range = λ x j e. rw (length-set a.slots i m) (v.in_range x j e);
  unshared = v.unshared;
}

-- What `AddSlot` does to the two sets, and what it reports: `r.1` whether the address was there
-- before the call, and `r.2` whether the slot is new.
pub record Adds (a : AccessList) (x : Address) (k : Hash) (r : AccessList × Bool × Bool)
    : Type 0 where
  pub valid : IsValid r.0
  pub addresses : (y : Address) → contains_address r.0 y ≡ (x == y || contains_address a y)
  pub slots : (y : Address) (j : Hash) → slot_in r.0 y j ≡ ((x == y && k == j) || slot_in a y j)
  pub was_present : r.1 ≡ contains_address a x
  pub is_new : r.2 ≡ not (slot_in a x k)

pub slot_in-at :
    (a : AccessList) (x : Address) (idx : ℕ) (m : Map (Unit {0})) (k : Hash)
    → lookup x a.addresses ≡ some idx
    → get_elem? a.slots idx ≡ some m
    → slot_in a x k ≡ has k m
unfolding slot_in
slot_in-at a x idx m k e f = ground arith

-- The end of `AddSlot`, at an address that is in the list.
add_slot_at-adds :
    (a : AccessList) (x : Address) (k : Hash) (present : Bool) (idx : ℕ)
    → IsValid a
    → lookup x a.addresses ≡ some idx
    → (l : AccessList) × (new : Bool) × (add_slot_at a present idx k ≡ some (l, present, new))
      × IsValid l
      × ((y : Address) → contains_address l y ≡ contains_address a y)
      × ((y : Address) (j : Hash) → slot_in l y j ≡ ((x == y && k == j) || slot_in a y j))
      × (new ≡ not (slot_in a x k))
unfolding add_slot_at contains_address
add_slot_at-adds a x k present idx v e =
    let (m, found) = get_elem?-some a.slots idx (v.in_range x idx e) in
    let own = slot_in-at a x idx m k e found in
    elim (Bool-cases (has k m)) [
      | inl old ↦ (
        a,
        false,
        rw (found, add_slot_at) (rw old refl),
        v,
        λ y. refl,
        λ y j. ground (
          arith,
          own,
          ap (λ (z : Address). slot_in a z j) {x = x} {y = y},
          ap (slot_in a x) {x = k} {y = j},
        ),
        ground arith,
      )
      | inr new ↦ (
        record a { slots = set a.slots idx (insert k tt m) },
        true,
        rw (found, add_slot_at) (rw new refl),
        set-IsValid a idx (insert k tt m) v,
        λ y. refl,
        slot_in-set a v x k idx e m found,
        ground arith,
      )
    ]

-- A new address has no slots, and the others keep theirs.
pub slot_in-extend :
    (a : AccessList) (x : Address)
    → IsValid a
    → lookup x a.addresses ≡ none
    → (y : Address) (j : Hash) → slot_in (extend a x) y j ≡ slot_in a y j
unfolding slot_in
slot_in-extend a x v new y j = elim (Bool-cases (x == y)) [
  | inl same ↦ ground (
    arith,
    lookup-insert x y (length a.slots) a.addresses,
    get_elem?-length a.slots [],
    lookup-nil {V = Unit {0}} j,
    ap (λ (z : Address). lookup z a.addresses) {x = x} {y = y},
  )
  | inr other ↦ elim (Option-cases (lookup y a.addresses)) [
    | inl e ↦ ground (arith, lookup-insert x y (length a.slots) a.addresses)
    | inr (i, e) ↦ ground (
      arith,
      lookup-insert x y (length a.slots) a.addresses,
      get_elem?-append a.slots ([] ∷ []) i (v.in_range y i e),
    )
  ]
]

pub contains_address-extend :
    (a : AccessList) (x y : Address)
    → contains_address (extend a x) y ≡ (x == y || contains_address a y)
unfolding contains_address
contains_address-extend a x y = ground (arith, lookup-insert x y (length a.slots) a.addresses)

present :
    (a : AccessList) (x : Address) (i : ℕ)
    → lookup x a.addresses ≡ some i
    → contains_address a x ≡ true
unfolding contains_address
present a x i e = ground arith

absent : (a : AccessList) (x : Address) → lookup x a.addresses ≡ none → contains_address a x ≡ false
unfolding contains_address
absent a x e = ground arith

pub present_already :
    (a : AccessList) (x y : Address) (i : ℕ)
    → lookup x a.addresses ≡ some i
    → contains_address a y ≡ (x == y || contains_address a y)
present_already a x y i e = ground (arith, present a x i e, ap (contains_address a) {x = x} {y = y})

-- On a valid list `AddSlot` does not panic; the address and the slot join their sets, nothing else
-- changes, and the list stays valid. It reports whether the address was there before, and whether
-- the slot was not.
pub add_slot-Adds :
    (a : AccessList) (x : Address) (k : Hash)
    → IsValid a
    → (r : AccessList × Bool × Bool) × (add_slot a x k ≡ some r) × Adds a x k r
unfolding add_slot
add_slot-Adds a x k v = elim (Option-cases (lookup x a.addresses)) [
  | inr (idx, e) ↦
      let (l, new, added, valid, addresses, slots, is_new) = add_slot_at-adds a x k true idx v e in
      (
        (l, true, new),
        rw (e, add_slot) added,
        record {
          valid = valid;
          addresses = λ y. addresses y ∙ present_already a x y idx e;
          slots = slots;
          was_present = sym (present a x idx e);
          is_new = is_new;
        },
      )
  | inl e ↦
      let at : lookup x (extend a x).addresses ≡ some (length a.slots) =
        ground (arith, lookup-insert x x (length a.slots) a.addresses) in
      let (l, new, added, valid, addresses, slots, is_new) =
        add_slot_at-adds (extend a x) x k false (length a.slots) (extend-IsValid a x v) at in
      (
        (l, false, new),
        rw (e, add_slot) added,
        record {
          valid = valid;
          addresses = λ y. addresses y ∙ contains_address-extend a x y;
          slots = λ y j. ground (arith, slots y j, slot_in-extend a x v e y j);
          was_present = sym (absent a x e);
          is_new = is_new ∙ ap not (slot_in-extend a x v e x k);
        },
      )
]
