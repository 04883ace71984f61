-- ===== src/State/Frame/Carries.antt =====
-- What the calls on the state database of pkg/state/statedb.go leave alone before a commit: the store
-- and the block, and that a map holds no key twice.
use evm_executor.Prelude.{
  ◌≡◌, refl, ◌∙◌, true, false, [], ◌∷◌, Map, lookup, insert, delete, Distinct, insert-Distinct,
  arith, Option-cases, inl, inr, if◌then◌else◌,
}
use evm_executor.Prelude.{Bool}
use evm_executor.Prelude.Int.{pos, is_zero}
use evm_executor.Deps.{Deps}
use evm_executor.Storage.Ops.{Address, Hash}
use evm_executor.Storage.State
use evm_executor.Storage.Batch.{Result-cases}
use evm_executor.State.Account.{Account}
use evm_executor.State.Db.{PikaStateDb}
use evm_executor.State.Journal.{Entry, create_object_change}
use evm_executor.State.Read
use evm_executor.State.Write
use evm_executor.State.Write.{slots_of, write_slot, put_account}
use evm_executor.State.Undo.{update_account}
use evm_executor.State.Commit.Written.{AllDistinct, IsMaps}
use evm_executor.State.Frame.{Op, step}

-- A state over the same store and block, whose maps hold no key twice.
pub record Carries {d : Deps} (s t : PikaStateDb d) : Type 0 where
  pub db : t.db ≡ s.db
  pub block_number : t.block_number ≡ s.block_number
  pub maps : IsMaps t

slots_of-Distinct :
    (a : Address) (storages : Map (Map Hash))
    → AllDistinct storages
    → Distinct (slots_of (lookup a storages))
unfolding lookup
slots_of-Distinct a [] h = tt
slots_of-Distinct a ((b, slots) ∷ storages) h = ground (arith, slots_of-Distinct a storages h.1)

delete-AllDistinct :
    (a : Address) (storages : Map (Map Hash))
    → AllDistinct storages
    → AllDistinct (delete a storages)
unfolding delete
delete-AllDistinct a [] h = tt
delete-AllDistinct a ((b, slots) ∷ storages) h = ground (arith, delete-AllDistinct a storages h.1)

pub write_slot-Distinct :
    (storages : Map (Map Hash)) (a : Address) (x v : Hash)
    → Distinct storages
    → AllDistinct storages
    → Distinct (write_slot storages a x v) × AllDistinct (write_slot storages a x v)
unfolding write_slot insert
write_slot-Distinct storages a x v h i = (
  insert-Distinct a (insert x v (slots_of (lookup a storages))) storages h,
  (
    insert-Distinct x v (slots_of (lookup a storages)) (slots_of-Distinct a storages i),
    delete-AllDistinct a storages i,
  ),
)

pub update_account-Distinct :
    (accounts : Map Account) (a : Address) (f : Account → Account)
    → Distinct accounts
    → Distinct (update_account accounts a f)
unfolding update_account
update_account-Distinct accounts a f h = elim (Option-cases (lookup a accounts)) [
  | inl missing ↦ rw (missing, update_account) h
  | inr (acc, found) ↦ rw (found, update_account) (insert-Distinct a (f acc) accounts h)
]

program : Unit {0}
unfolding step Read.get_account Read.get_code Read.get_state Write.create_account Write.suicide
    Write.add_address_to_access_list Write.sub_balance Write.add_balance Write.set_nonce
    Write.set_code Write.set_state Write.add_log Write.add_refund Write.sub_refund
    Write.add_preimage
program = tt

module _ {d : Deps} where
  pub Carries-trans : {r s t : PikaStateDb d} → Carries r s → Carries s t → Carries r t
  Carries-trans p q = record {
    db = q.db ∙ p.db;
    block_number = q.block_number ∙ p.block_number;
    maps = q.maps;
  }

  pub Carries-refl : (s : PikaStateDb d) → IsMaps s → Carries s s
  Carries-refl s maps = record { db = refl; block_number = refl; maps = maps }

  load_account-Distinct :
      (s : PikaStateDb d) (a : Address) → Distinct s.accounts → Distinct (Read.load_account s a).1
  unfolding Read.load_account
  load_account-Distinct s a h = elim (Option-cases (lookup a s.accounts)) [
    | inr (acc, found) ↦ rw (found, Read.load_account) h
    | inl missing ↦ elim (Option-cases (d.account_lru.get s.state_cache a).0) [
      | inr (cached, hit) ↦
          rw (missing, Read.load_account) (rw (hit) (insert-Distinct a _ s.accounts h))
      | inl miss ↦ elim (Result-cases (State.get_account d s.db s.block_number a)) [
        | inl (e, unread) ↦ rw (missing, Read.load_account) (rw (miss) (rw (unread) h))
        | inr (stored, read) ↦
            rw (missing, Read.load_account)
              (rw (miss) (rw (read) (insert-Distinct a _ s.accounts h)))
      ]
    ]
  ]

  get_account-Carries :
      (s : PikaStateDb d) (a : Address) → IsMaps s → Carries s (Read.get_account s a).1
  unfolding Read.get_account
  get_account-Carries s a maps = record {
    db = refl;
    block_number = refl;
    maps = record {
      accounts = load_account-Distinct s a maps.accounts;
      storages = maps.storages;
      slots = maps.slots;
      codes = maps.codes;
    };
  }

  get_code-Carries : (s : PikaStateDb d) (a : Address) → IsMaps s → Carries s (Read.get_code s a).1
  unfolding Read.get_code
  get_code-Carries s a maps = ground (arith, get_account-Carries s a maps)

  put_account-Carries :
      (s t : PikaStateDb d) (entry : Entry) (a : Address) (acc : Account)
      → Carries s t
      → Carries s (put_account t entry a acc)
  put_account-Carries s t entry a acc h = record {
    db = h.db;
    block_number = h.block_number;
    maps = record {
      accounts = insert-Distinct a acc t.accounts h.maps.accounts;
      storages = h.maps.storages;
      slots = h.maps.slots;
      codes = h.maps.codes;
    };
  }

  pub carries :
      {s t : PikaStateDb d}
      → t.db ≡ s.db
      → t.block_number ≡ s.block_number
      → Distinct t.accounts
      → Distinct t.storages
      → AllDistinct t.storages
      → Distinct t.codes
      → Carries s t
  carries e n a st sl co = record {
    db = e;
    block_number = n;
    maps = record { accounts = a; storages = st; slots = sl; codes = co };
  }

  if-Carries :
      (s t u : PikaStateDb d) (b : Bool)
      → Carries s t
      → Carries s u
      → Carries s (if b then t else u)
  if-Carries s t u true h i = h
  if-Carries s t u false h i = i

  module _ (s : PikaStateDb d) (maps : IsMaps s) where
    -- A method that reads an account and then puts another one in its place.
    changed-Carries :
        (a : Address) (entry : Entry) (acc : Account)
        → Carries s (put_account (Read.get_account s a).1 entry a acc)
    changed-Carries a entry acc =
        put_account-Carries s (Read.get_account s a).1 entry a acc (get_account-Carries s a maps)

    -- Every step keeps the store, the block and the maps' form.
    pub step-Carries : (op : Op) → Carries s (step s op)
    unfolding program
    step-Carries (Op.create_account a) =
        if-Carries s _ _ _ (changed-Carries a _ _) (get_account-Carries s a maps)
    step-Carries (Op.suicide a) =
        let h =
          changed-Carries a (create_object_change a)
            (record (Read.get_account s a).0 { balance = pos 0 }) in
        carries h.db h.block_number h.maps.accounts h.maps.storages h.maps.slots h.maps.codes
    step-Carries (Op.add_address a) = ground (arith, Carries-refl s maps)
    step-Carries (Op.read_account a) = get_account-Carries s a maps
    step-Carries (Op.read_code a) = get_code-Carries s a maps
    step-Carries (Op.sub_balance a n) =
        if-Carries s _ _ (is_zero n) (Carries-refl s maps) (changed-Carries a _ _)
    step-Carries (Op.add_balance a n) =
        if-Carries s _ _ (is_zero n) (Carries-refl s maps) (changed-Carries a _ _)
    step-Carries (Op.set_nonce a n) = changed-Carries a _ _
    step-Carries (Op.set_code a code) =
        let h = get_account-Carries s a maps in
        let i = get_code-Carries (Read.get_account s a).1 a h.maps in
        carries (i.db ∙ h.db) (i.block_number ∙ h.block_number)
          (insert-Distinct a _ _ i.maps.accounts) i.maps.storages i.maps.slots
          (insert-Distinct _ code _ i.maps.codes)
    step-Carries (Op.set_state a k v) =
        let (h, i) = write_slot-Distinct s.storages a k v maps.storages maps.slots in
        if-Carries s _ _ _ (carries refl refl maps.accounts maps.storages maps.slots maps.codes)
          (carries refl refl maps.accounts h i maps.codes)
    step-Carries (Op.read_state a k) = ground (arith, Carries-refl s maps)
    step-Carries (Op.add_log l) = ground (arith, Carries-refl s maps)
    step-Carries (Op.add_refund n) = ground (arith, Carries-refl s maps)
    step-Carries (Op.sub_refund n) = ground (arith, Carries-refl s maps)
    step-Carries (Op.add_preimage h t) = ground (arith, Carries-refl s maps)
