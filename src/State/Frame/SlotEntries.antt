-- ===== src/State/Frame/SlotEntries.antt =====
-- The journal entries of `AddSlotToAccessList` of pkg/state/statedb.go. `AddSlot` reports whether
-- the address was present, and the caller reads the flag as whether the address was added.
use mathlib.Core.Path.{subst}
use mathlib.Core.List.{append-nil, append_assoc}
use evm_executor.Prelude.{
  ◌≡◌, refl, ap, sym, ◌∙◌, Bool, true, false, not, some, List, [], ◌∷◌, ◌++◌, lookup, has, delete,
  lookup-delete, set, arith, if◌then◌else◌, length, Option-cases, inl, inr,
}
use evm_executor.Deps.{Deps}
use evm_executor.Storage.Ops.{Address, Hash}
use evm_executor.State.AccessList.{AccessList, contains_address, delete_address, delete_slot}
use evm_executor.State.AccessList.Valid.{IsValid, get_elem?-some, add_slot-Adds}
use evm_executor.State.Journal.{
  Entry, access_list_add_account_change, access_list_add_slot_change, append,
}
use evm_executor.State.Db.{PikaStateDb}
use evm_executor.State.Read.{address_in_access_list}
use evm_executor.State.Write.{note_slot, add_slot_to_access_list}
use evm_executor.State.Undo.{undo_entry, undo_entries}
use evm_executor.State.Snapshot.{snapshot, find_revision, revert_to_snapshot}
use evm_executor.State.Frame.Invariant.{IdsBelow}
use evm_executor.State.Frame.Reverts.{revert-suffix, revert_to_snapshot-eq, find_revision-append}

-- `DeleteSlot` on a valid list does not panic, and leaves the addresses.
delete_slot-addresses :
    (a : AccessList) (x : Address) (k : Hash)
    → IsValid a
    → (l : AccessList) × (delete_slot a x k ≡ some l) × (l.addresses ≡ a.addresses)
unfolding delete_slot
delete_slot-addresses a x k v = elim (Option-cases (lookup x a.addresses)) [
  | inl e ↦ (a, rw (e, delete_slot), refl)
  | inr (i, e) ↦
      let (m, found) = get_elem?-some a.slots i (v.in_range x i e) in
      (record a { slots = set a.slots i (delete k m) }, rw (e, delete_slot) (rw found), refl)
]

same_addresses :
    (a b : AccessList) (x : Address)
    → a.addresses ≡ b.addresses
    → contains_address a x ≡ contains_address b x
unfolding contains_address
same_addresses a b x e = ap (has x) e

contains_address-delete :
    (a : AccessList) (x : Address) → contains_address (delete_address a x) x ≡ false
unfolding contains_address delete_address
contains_address-delete a x = ground (arith, lookup-delete x x a.addresses)

-- The entries that the method appends, by the flags of `AddSlot`.
entries_of : Address → Hash → Bool → Bool → List Entry
entries_of x k false false = []
entries_of x k false true = access_list_add_slot_change x k ∷ []
entries_of x k true false = access_list_add_account_change x ∷ []
entries_of x k true true = access_list_add_account_change x ∷ access_list_add_slot_change x k ∷ []

module _ {d : Deps} where
  note_slot-entries :
      (s : PikaStateDb d) (x : Address) (k : Hash) (a b : Bool)
      → ((note_slot s x k a b).journal.entries ≡ s.journal.entries ++ entries_of x k a b)
        × ((note_slot s x k a b).valid_revisions ≡ s.valid_revisions)
        × ((note_slot s x k a b).access_list ≡ s.access_list)
  unfolding entries_of append
  note_slot-entries s x k false false = (sym (append-nil s.journal.entries), refl, refl)
  note_slot-entries s x k false true = (refl, refl, refl)
  note_slot-entries s x k true false = (refl, refl, refl)
  note_slot-entries s x k true true = (append_assoc s.journal.entries _ _, refl, refl)

  -- Undoing them deletes the address exactly if `addr_mod` is set.
  undo-entries_of :
      (t : PikaStateDb d) (x : Address) (k : Hash) (a b : Bool)
      → IsValid t.access_list
      → (r : PikaStateDb d) × (undo_entries (entries_of x k a b) t ≡ some r)
        × (contains_address r.access_list x
            ≡ (if a then false else contains_address t.access_list x))
  unfolding undo_entries undo_entry entries_of
  undo-entries_of t x k false false v = (t, refl, refl)
  undo-entries_of t x k true false v = (
    record t { access_list = delete_address t.access_list x },
    refl,
    contains_address-delete t.access_list x,
  )
  undo-entries_of t x k false true v =
      let (l, deleted, same) = delete_slot-addresses t.access_list x k v in
      (
        record t { access_list = l },
        rw (deleted, undo_entry),
        same_addresses l t.access_list x same,
      )
  undo-entries_of t x k true true v =
      let (l, deleted, same) = delete_slot-addresses t.access_list x k v in
      (
        record t { access_list = delete_address l x },
        rw (deleted, undo_entry),
        contains_address-delete l x,
      )

  -- The defect: over any valid access list, `AddSlotToAccessList` between a snapshot and its revert
  -- runs without a panic, and turns the membership of its address round. An address that was in the
  -- list before the snapshot is gone after the revert, and one that was not in it stays.
  pub revert_flips_address :
      (s : PikaStateDb d) (x : Address) (k : Hash)
      → IsValid s.access_list
      → IdsBelow s.next_revision_id s.valid_revisions
      → (s' t : PikaStateDb d) × (add_slot_to_access_list (snapshot s).1 x k ≡ some s')
        × (revert_to_snapshot s' (snapshot s).0 ≡ some t)
        × (address_in_access_list t x ≡ not (address_in_access_list s x))
  unfolding add_slot_to_access_list snapshot address_in_access_list
  revert_flips_address s x k v ids =
      let (r, done, adds) = add_slot-Adds s.access_list x k v in
      let s1 = record (snapshot s).1 { access_list = r.0 } in
      let s' = note_slot s1 x k r.1 r.2 in
      let (entries, revisions, list) = note_slot-entries s1 x k r.1 r.2 in
      let (m, undone, flipped) =
        undo-entries_of s' x k r.1 r.2 (subst IsValid (sym list) adds.valid) in
      let reverted = revert-suffix s s' (entries_of x k r.1 r.2) entries undone in
      let found =
        ap (find_revision s.next_revision_id) (revisions ∙ sym (append-nil _))
        ∙ find_revision-append s.next_revision_id s.next_revision_id s.valid_revisions []
            (length s.journal.entries) ids (omega arith) in
      (
        s',
        _,
        rw (done, add_slot_to_access_list),
        revert_to_snapshot-eq s' _ s.next_revision_id _ s.valid_revisions found reverted,
        ground (
          arith,
          flipped,
          adds.was_present,
          adds.addresses x,
          ap (λ l. contains_address l x) list,
        ),
      )
