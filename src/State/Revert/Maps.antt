-- ===== src/State/Revert/Maps.antt =====
-- What a write and its undoing do to each of the maps of the state database.
use evm_executor.Prelude.{
  ℕ, ◌-◌, ◌≤◌, ◌<◌, ◌≡◌, refl, ap, ◌∙◌, ◌&&◌, none, some, List, [], ◌∷◌, ◌++◌, Map, lookup, insert,
  delete, lookup-nil, lookup-insert, lookup-delete, arith, length, length-append, take, take-append,
  get_elem?, get_elem?-append, ◌==◌, if◌then◌else◌,
}
use evm_executor.Storage.Ops.{Address, Hash}
use evm_executor.State.Account.{Account}
use evm_executor.State.AccessList.{AccessList, delete_address}
use evm_executor.State.Db.{Log}
use evm_executor.State.Read.{written_slot}
use evm_executor.State.Read.Spec.{or_else}
use evm_executor.State.Write.{write_slot, slots_of, logs_of}
use evm_executor.State.Undo.{update_account, drop_log}

-- `m` shows every account as `n` does, where `base` is what the store shows, and has loaded
-- whatever `n` has loaded.
pub record SameAccounts (base : Address → Account) (m n : Map Account) : Type 0 where
  pub seen : (b : Address) → or_else (lookup b m) (base b) ≡ or_else (lookup b n) (base b)
  pub loaded : (b : Address) → lookup b m ≡ none → lookup b n ≡ none

module _ {base : Address → Account} where
  pub SameAccounts-refl : (m : Map Account) → SameAccounts base m m
  SameAccounts-refl m = record { seen = λ b. refl; loaded = λ b e. e }

  pub SameAccounts-trans :
      {l m n : Map Account} → SameAccounts base l m → SameAccounts base m n → SameAccounts base l n
  SameAccounts-trans p q = record {
    seen = λ b. p.seen b ∙ q.seen b;
    loaded = λ b e. q.loaded b (p.loaded b e);
  }

  -- What was written over `m` stands in every map that shows the same.
  written_stays :
      (addr : Address) (acc : Account) (t m : Map Account)
      → SameAccounts base t (insert addr acc m)
      → lookup addr t ≡ some acc
  written_stays addr acc t m h =
      ground (arith, h.seen addr, h.loaded addr, lookup-insert {V = Account} addr addr acc m)

  -- `addr` was written over `m`, and `f` takes the new account back to the old one.
  pub update-SameAccounts :
      (addr : Address) (f : Account → Account) (acc : Account) (t m : Map Account)
      → f acc ≡ or_else (lookup addr m) (base addr)
      → SameAccounts base t (insert addr acc m)
      → SameAccounts base (update_account t addr f) m
  unfolding update_account
  update-SameAccounts addr f acc t m back h =
      rw (written_stays addr acc t m h, update_account)
        (record {
          seen = λ b. ground (
            arith,
            back,
            h.seen b,
            lookup-insert {V = Account} addr b acc m,
            lookup-insert {V = Account} addr b (f acc) t,
            ap base,
          );
          loaded = λ b e. ground (
            arith,
            h.loaded b,
            lookup-insert {V = Account} addr b acc m,
            lookup-insert {V = Account} addr b (f acc) t,
          );
        })

  -- The account was not in `n` before it was written, so it is dropped again.
  pub delete-SameAccounts :
      (addr : Address) (acc : Account) (t m n : Map Account)
      → lookup addr n ≡ none
      → SameAccounts base m n
      → SameAccounts base t (insert addr acc m)
      → SameAccounts base (delete addr t) n
  delete-SameAccounts addr acc t m n unloaded same h = record {
    seen = λ b. ground (
      arith,
      same.seen b,
      h.seen b,
      lookup-insert {V = Account} addr b acc m,
      lookup-delete {V = Account} addr b t,
      ap (λ (y : Address). lookup y n) {x = addr} {y = b},
    );
    loaded = λ b e. ground (
      arith,
      same.loaded b,
      h.loaded b,
      lookup-insert {V = Account} addr b acc m,
      lookup-delete {V = Account} addr b t,
      ap (λ (y : Address). lookup y n) {x = addr} {y = b},
    );
  }

-- A slot write changes the slot and no other.
pub written_slot-write_slot :
    (storages : Map (Map Hash)) (addr b : Address) (key k v : Hash)
    → written_slot (write_slot storages addr key v) b k
      ≡ (if addr == b && key == k then some v else written_slot storages b k)
unfolding written_slot write_slot
written_slot-write_slot storages addr b key k v = ground (
  arith,
  lookup-insert addr b (insert key v (slots_of (lookup addr storages))) storages,
  lookup-insert key k v (slots_of (lookup addr storages)),
  lookup-nil {V = Hash} k,
  ap (λ (a : Address). lookup a storages) {x = addr} {y = b},
)

abbrev pub logs_in : Map (List Log) → Hash → List Log
logs_in logs h = logs_of (lookup h logs)

last_dropped : (old : List Log) (l : Log) → take (length (old ++ l ∷ []) - 1) (old ++ l ∷ []) ≡ old
last_dropped old l =
    let e : length (old ++ l ∷ []) - 1 ≡ length old =
      omega (arith, length-append {0} old (l ∷ [])) in
    rw e (take-append old (l ∷ []))

drop_log-append :
    (logs : Map (List Log)) (th : Hash) (old : List Log) (l : Log)
    → (r : Map (List Log)) × (drop_log logs th (old ++ l ∷ []) ≡ some r)
      × ((h : Hash) → logs_in r h ≡ (if th == h then old else logs_in logs h))
unfolding drop_log
drop_log-append logs th [] l = (delete th logs, refl, λ h. ground (arith, lookup-delete th h logs))
drop_log-append logs th (x ∷ []) l =
    (insert th (x ∷ []) logs, refl, λ h. ground (arith, lookup-insert th h (x ∷ []) logs))
drop_log-append logs th (x ∷ y ∷ rest) l = (
  insert th (x ∷ y ∷ rest) logs,
  ap (λ own. some (insert th own logs)) (last_dropped (x ∷ y ∷ rest) l),
  λ h. ground (arith, lookup-insert th h (x ∷ y ∷ rest) logs),
)

-- The last log of a transaction is dropped again, without a panic.
pub drop_log-undoes :
    (t m : Map (List Log)) (th : Hash) (l : Log)
    → ((h : Hash) → logs_in t h ≡ logs_in (insert th (logs_in m th ++ l ∷ []) m) h)
    → (r : Map (List Log)) × (drop_log t th (logs_in t th) ≡ some r)
      × ((h : Hash) → logs_in r h ≡ logs_in m h)
drop_log-undoes t m th l seen =
    let own : logs_in t th ≡ logs_in m th ++ l ∷ [] =
      ground (arith, seen th, lookup-insert th th (logs_in m th ++ l ∷ []) m) in
    let (r, dropped, shows) = drop_log-append t th (logs_in m th) l in
    (
      r,
      rw own dropped,
      λ h. ground (
        arith,
        shows h,
        seen h,
        lookup-insert th h (logs_in m th ++ l ∷ []) m,
        ap (logs_in m) {x = th} {y = h},
      ),
    )

-- `a` holds the addresses of `b` at the same indices, and at the indices of `b` the same slots.
pub record SameAccess (a b : AccessList) : Type 0 where
  pub addresses : (x : Address) → lookup x a.addresses ≡ lookup x b.addresses
  pub slots : (i : ℕ) → i < length b.slots → get_elem? a.slots i ≡ get_elem? b.slots i
  pub size : length b.slots ≤ length a.slots

pub SameAccess-refl : (a : AccessList) → SameAccess a a
SameAccess-refl a = record { addresses = λ x. refl; slots = λ i h. refl; size = omega arith }

pub SameAccess-trans : {a b c : AccessList} → SameAccess a b → SameAccess b c → SameAccess a c
SameAccess-trans p q = record {
  addresses = λ x. p.addresses x ∙ q.addresses x;
  slots = λ i h. p.slots i (omega (arith, q.size)) ∙ q.slots i h;
  size = omega (arith, p.size, q.size);
}

-- The list with a new address, whose set of slots is empty.
abbrev pub with_address : AccessList → Address → AccessList
with_address a addr = record {
  addresses = insert addr (length a.slots) a.addresses;
  slots = a.slots ++ [] ∷ [];
}

pub delete_address-SameAccess :
    (t a : AccessList) (addr : Address)
    → lookup addr a.addresses ≡ none
    → SameAccess t (with_address a addr)
    → SameAccess (delete_address t addr) a
unfolding delete_address
delete_address-SameAccess t a addr new h = record {
  addresses = λ x. ground (
    arith,
    h.addresses x,
    lookup-delete addr x t.addresses,
    lookup-insert addr x (length a.slots) a.addresses,
    ap (λ (y : Address). lookup y a.addresses) {x = addr} {y = x},
  );
  slots = λ i below.
      h.slots i (omega (arith, length-append {0} a.slots ([] ∷ [])))
      ∙ get_elem?-append a.slots ([] ∷ []) i below;
  size = omega (arith, h.size, length-append {0} a.slots ([] ∷ []));
}
