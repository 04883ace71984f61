-- ===== src/State/AccessList/Copies.antt =====
-- `Copy` of pkg/state/account.go, in the order in which the map of addresses is walked.
use mathlib.Core.Path.{subst}
use evm_executor.Prelude.{
  ℕ, zero, suc, ◌+◌, ◌<◌, ◌≡◌, refl, ap, sym, ◌∙◌, true, ◌||◌, none, some, List, [], ◌∷◌, ◌++◌, Map,
  lookup, insert, has, keys, Distinct, length, get_elem?, set, lookup-insert, lookup-nil,
  length-append, get_elem?-append, get_elem?-length, arith, ◌==◌, Option-cases, Bool-cases, inl,
  inr,
}
use evm_executor.Storage.Ops.{Address, Hash}
use evm_executor.State.AccessList.{
  AccessList, new_access_list, contains, copy_slots, copy_from, copy,
}
use evm_executor.State.AccessList.Valid.{IsValid, get_elem?-some}
use evm_executor.State.AccessList.Tuples.{member-has}
use evm_executor.State.AccessList.Joins.{member}

-- The indices are `n` and the following ones, in the order of the walk.
unfoldable pub IsInOrder : ℕ → Map ℕ → Type 0
IsInOrder n [] = Unit {0}
IsInOrder n ((_, idx) ∷ rest) = (idx ≡ n) × IsInOrder (n + 1) rest

set-last :
    (xs : List (Map (Unit {0}))) (m m' : Map (Unit {0}))
    → set (xs ++ m ∷ []) (length xs) m' ≡ xs ++ m' ∷ []
set-last [] m m' = refl
set-last (x ∷ xs) m m' = ap (◌∷◌ x) (set-last xs m m')

-- The inner loop at the last index adds its slots.
copy_slots-last :
    (addresses : Map ℕ) (xs : List (Map (Unit {0}))) (m : Map (Unit {0})) (ks : List Hash)
    → (m' : Map (Unit {0})) × (copy_slots
          (record { addresses = addresses; slots = xs ++ m ∷ [] })
          (length xs)
          ks
        ≡ some (record { addresses = addresses; slots = xs ++ m' ∷ [] }))
      × ((j : Hash) → has j m' ≡ (member j ks || has j m))
unfolding copy_slots member
copy_slots-last addresses xs m [] = (m, refl, λ j. refl)
copy_slots-last addresses xs m (k ∷ ks) =
    let (m', copied, same) = copy_slots-last addresses xs (insert k tt m) ks in
    (
      m',
      rw (get_elem?-length xs m, copy_slots)
          (ap
              (λ (s : List (Map (Unit {0}))).
                copy_slots (record { addresses = addresses; slots = s }) (length xs) ks)
              (set-last xs m (insert k tt m))
            ∙ copied),
      λ j. ground (arith, same j, lookup-insert k j tt m),
    )

-- The sets at an index hold the same slots.
SameSet : AccessList → AccessList → ℕ → Type 0
SameSet a b i =
    (m : Map (Unit {0})) × (m' : Map (Unit {0})) × (get_elem? a.slots i ≡ some m)
    × (get_elem? b.slots i ≡ some m')
    × ((j : Hash) → has j m' ≡ has j m)

module _ (a : AccessList) where
  copy_from-ordered :
      (cp : AccessList) (entries : Map ℕ)
      → IsInOrder (length cp.slots) entries
      → Distinct entries
      → ((y : Address) (i : ℕ) → lookup y entries ≡ some i → i < length a.slots)
      → (b : AccessList) × (copy_from a cp entries ≡ some b)
        × ((y : Address)
            → lookup y b.addresses
              ≡ elim (lookup y entries) [ none ↦ lookup y cp.addresses | some i ↦ some i ])
        × ((i : ℕ) → i < length cp.slots → get_elem? b.slots i ≡ get_elem? cp.slots i)
        × ((y : Address) (i : ℕ) → lookup y entries ≡ some i → SameSet a b i)
  unfolding copy_from IsInOrder lookup SameSet
  copy_from-ordered cp [] order h range =
      (cp, refl, λ y. refl, λ i below. refl, λ y i e. ground arith)
  copy_from-ordered cp ((x, idx) ∷ entries) (here, order) (new, h) range =
      let (m, found) = get_elem?-some a.slots idx (range x idx (ground arith)) in
      let (m', copied, same) = copy_slots-last (insert x idx cp.addresses) cp.slots [] (keys m) in
      let next : AccessList = record {
        addresses = insert x idx cp.addresses;
        slots = cp.slots ++ m' ∷ [];
      } in
      let longer : length next.slots ≡ length cp.slots + 1 =
        ground (arith, length-append {0} cp.slots (m' ∷ [])) in
      let in_rest : (y : Address) (i : ℕ)
          → lookup y entries ≡ some i
          → lookup y ((x, idx) ∷ entries) ≡ some i =
        λ y i e. ground (arith, e, new, ap (λ (z : ℕ). lookup z entries) {x = x} {y = y}) in
      let (b, rest, addresses, earlier, others) =
        copy_from-ordered next entries (subst (λ (n : ℕ). IsInOrder n entries) (sym longer) order) h
          (λ y i e. range y i (in_rest y i e)) in
      let at : copy_slots
            (record { addresses = insert x idx cp.addresses; slots = cp.slots ++ [] ∷ [] }) idx
            (keys m)
          ≡ some next =
        ap
          (λ (i : ℕ).
            copy_slots
              (record { addresses = insert x idx cp.addresses; slots = cp.slots ++ [] ∷ [] }) i
              (keys m))
          here
        ∙ copied in
      let own : SameSet a b idx = (
        m,
        m',
        found,
        earlier idx (omega (arith, longer, here))
            ∙ ap (get_elem? next.slots) here
            ∙ get_elem?-length cp.slots m',
        λ j. ground (arith, same j, member-has j m, lookup-nil {V = Unit {0}} j),
      ) in
      (
        b,
        rw (found, copy_from) (rw at rest),
        λ y. ground (
          arith,
          addresses y,
          lookup-insert x y idx cp.addresses,
          new,
          ap (λ (z : ℕ). lookup z entries) {x = x} {y = y},
        ),
        λ i below. earlier i (omega (arith, longer)) ∙ get_elem?-append cp.slots (m' ∷ []) i below,
        λ y i e. elim (Bool-cases (x == y)) [
          | inl equal ↦ subst (SameSet a b) (ground (arith, e)) own
          | inr other ↦ others y i (ground (arith, e))
        ],
      )

-- If an access list is valid, its map of addresses holds no key twice and the walk of Copy over it meets
-- the indices in their order, 0 first, each once, then Copy does not panic, and Contains answers every
-- question for the copy as for the list.
pub copy-ordered :
    (a : AccessList)
    → IsValid a
    → Distinct a.addresses
    → IsInOrder 0 a.addresses
    → (b : AccessList) × (copy a ≡ some b)
      × ((y : Address) (j : Hash) → contains b y j ≡ contains a y j)
unfolding copy contains SameSet
copy-ordered a v h order =
    let (b, copied, addresses, _, sets) =
      copy_from-ordered a new_access_list a.addresses order h v.in_range in
    (
      b,
      copied,
      λ y j. elim (Option-cases (lookup y a.addresses)) [
        | inl missing ↦ ground (arith, addresses y, lookup-nil {V = ℕ} y)
        | inr (i, at) ↦
            let (m, m', found, found', same) = sets y i at in ground (arith, addresses y, same j)
      ],
    )

beyond_one : (m : Map (Unit {0})) (i : ℕ) → 0 < i → get_elem? (m ∷ []) i ≡ none
beyond_one m zero l = absurd (omega arith)
beyond_one m (suc i) l = refl

copy_slots-out :
    (cp : AccessList) (idx : ℕ) (j : Hash) (m : Map (Unit {0}))
    → get_elem? cp.slots idx ≡ none
    → has j m ≡ true
    → copy_slots cp idx (keys m) ≡ none
unfolding copy_slots lookup
copy_slots-out cp idx j [] out inside = ground arith
copy_slots-out cp idx j ((k, _) ∷ m) out inside = ground arith

-- The defect: if the walk of Copy over the addresses begins with one whose index is not 0, and that
-- has a slot, then Copy panics, an index out of range.
pub copy_panics :
    (a : AccessList) (x : Address) (idx : ℕ) (rest : Map ℕ) (m : Map (Unit {0})) (j : Hash)
    → a.addresses ≡ (x, idx) ∷ rest
    → 0 < idx
    → get_elem? a.slots idx ≡ some m
    → has j m ≡ true
    → copy a ≡ none
unfolding copy copy_from
copy_panics a x idx rest m j walk later found inside =
    let cp : AccessList = record {
      addresses = insert x idx new_access_list.addresses;
      slots = new_access_list.slots ++ [] ∷ [];
    } in
    let out = copy_slots-out cp idx j m (beyond_one [] idx later) inside in
    ap (copy_from a new_access_list) walk ∙ rw (found, copy_from) (rw out refl)
