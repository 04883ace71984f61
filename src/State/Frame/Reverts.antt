-- ===== src/State/Frame/Reverts.antt =====
-- `RevertToSnapshot` of pkg/state/statedb.go at the end of a call frame.
use mathlib.Core.List.{append-nil}
use evm_executor.Prelude.{
  ℕ, ◌+◌, ◌≤◌, ◌≡◌, refl, ap, sym, ◌∙◌, false, none, some, List, [], ◌∷◌, ◌++◌, arith, ltb, length,
  length-append, take, drop, take-append, drop-append, lookup,
}
use evm_executor.Deps.{Deps, IsDeps}
use evm_executor.State.Db.{Revision, PikaStateDb}
use evm_executor.State.Journal.{Entry, truncate}
use evm_executor.State.Snapshot.{snapshot, find_revision, with_revisions, revert_to_snapshot}
use evm_executor.State.Undo.{undo_entries, revert}
use evm_executor.State.Revert.Restores.{Restores, Restores-refl, Undoable}
use evm_executor.State.Revert.Core.{Core, Coherent-of_core, core-undo_entries}
use evm_executor.State.Revert.Accounts
use evm_executor.State.Revert.Contracts
use evm_executor.State.Revert.Others
use evm_executor.State.Frame.{Op, step}
use evm_executor.State.Frame.Invariant.{IdsBelow, Ready}

-- The snapshot is found again behind whatever was taken before and after it.
pub find_revision-append :
    (n id : ℕ) (before later : List Revision) (index : ℕ)
    → IdsBelow n before
    → n ≤ id
    → find_revision id ((before ++ record { id = id; journal_index = index } ∷ []) ++ later)
      ≡ some (before, index)
unfolding find_revision
find_revision-append n id [] later index h le = ground arith
find_revision-append n id (r ∷ rs) later index h le =
    ground (arith, find_revision-append n id rs later index h.1 le)

IdsBelow-prefix : (n : ℕ) (xs ys : List Revision) → IdsBelow n (xs ++ ys) → IdsBelow n xs
IdsBelow-prefix n [] ys h = tt
IdsBelow-prefix n (x ∷ xs) ys h = (h.0, IdsBelow-prefix n xs ys h.1)

module _ {d : Deps} where
  -- `CreateAccount` runs on an account that this state database has not loaded.
  abbrev pub Fresh : Op → PikaStateDb d → Type 0
  Fresh (Op.create_account a) s = lookup a s.accounts ≡ none
  Fresh op s = Unit {0}

  pub step-Undoable :
      IsDeps d → (s : PikaStateDb d) → Ready s → (op : Op) → Fresh op s → Undoable s (step s op)
  unfolding step
  step-Undoable laws s r (Op.create_account a) f =
      Contracts.create_account-Undoable s r.coherent a f
  step-Undoable laws s r (Op.suicide a) f = Contracts.suicide-Undoable s r.coherent a
  step-Undoable laws s r (Op.add_address a) f = Others.add_address_to_access_list-Undoable s a
  step-Undoable laws s r (Op.read_account a) f = Accounts.get_account-Undoable s r.coherent a
  step-Undoable laws s r (Op.read_code a) f = Accounts.get_code-Undoable s r.coherent a
  step-Undoable laws s r (Op.sub_balance a n) f = Accounts.sub_balance-Undoable s r.coherent a n
  step-Undoable laws s r (Op.add_balance a n) f = Accounts.add_balance-Undoable s r.coherent a n
  step-Undoable laws s r (Op.set_nonce a n) f = Accounts.set_nonce-Undoable s r.coherent a n
  step-Undoable laws s r (Op.set_code a c) f = Contracts.set_code-Undoable s r.coherent a laws c
  step-Undoable laws s r (Op.set_state a k v) f = Others.set_state-Undoable s r.coherent a k v
  step-Undoable laws s r (Op.read_state a k) f = Others.get_state-Undoable s a k
  step-Undoable laws s r (Op.add_log l) f = Others.add_log-Undoable s r.small l
  step-Undoable laws s r (Op.add_refund n) f = Others.add_refund-Undoable s n
  step-Undoable laws s r (Op.sub_refund n) f = Others.sub_refund-Undoable s n
  step-Undoable laws s r (Op.add_preimage h t) f = Others.add_preimage-Undoable s h t

  pub snapshot-Ready : (s : PikaStateDb d) → Ready s → Ready (snapshot s).1
  unfolding snapshot
  snapshot-Ready s r = record {
    coherent = record {
      account_level = r.coherent.account_level;
      slot_level = r.coherent.slot_level;
      code_level = r.coherent.code_level;
    };
    small = r.small;
    ids = ids s.valid_revisions r.ids;
  }
    where
      ids :
          (rs : List Revision)
          → IdsBelow s.next_revision_id rs
          → IdsBelow (s.next_revision_id + 1) (
              rs
              ++ record { id = s.next_revision_id; journal_index = length s.journal.entries } ∷ [])
      ids [] h = (omega arith, tt)
      ids (x ∷ rs) h = (omega arith, ids rs h.1)

  pub snapshot-Undoable : (s : PikaStateDb d) → Undoable s (snapshot s).1
  unfolding snapshot undo_entries
  snapshot-Undoable s = record {
    suffix = [];
    entries = sym (append-nil s.journal.entries);
    undo = λ t h. (
      t,
      refl,
      record {
        same_db = h.same_db;
        same_block = h.same_block;
        accounts = h.accounts;
        slots = h.slots;
        suicided = h.suicided;
        logs = h.logs;
        log_size = h.log_size;
        preimages = h.preimages;
        refund = h.refund;
        access = h.access;
      },
    );
    later = record { id = s.next_revision_id; journal_index = length s.journal.entries } ∷ [];
    revisions = refl;
  }

  -- What a revert leaves: all that `s` showed, its journal entries and its snapshots.
  pub record Reverted (s' s : PikaStateDb d) : Type 0 where
    pub shows : Restores s' s
    pub entries : s'.journal.entries ≡ s.journal.entries
    pub revisions : s'.valid_revisions ≡ s.valid_revisions

  -- The journal's `revert`, back to the length that it had at `s`.
  pub revert-suffix :
      (s s' : PikaStateDb d) (suffix : List Entry) {r : PikaStateDb d}
      → s'.journal.entries ≡ s.journal.entries ++ suffix
      → undo_entries suffix s' ≡ some r
      → revert s' (length s.journal.entries)
        ≡ some (record r { journal = truncate s.journal.entries })
  unfolding revert
  revert-suffix s s' suffix entries undone =
      let n = length s.journal.entries in
      let long : ltb (length s'.journal.entries) n ≡ false =
        ground (arith, ap length entries, length-append s.journal.entries suffix) in
      let kept : take n s'.journal.entries ≡ s.journal.entries =
        ap (take n) entries ∙ take-append s.journal.entries suffix in
      let dropped : drop n s'.journal.entries ≡ suffix =
        ap (drop n) entries ∙ drop-append s.journal.entries suffix in
      rw (long, kept, dropped, undone)

  pub revert_to_snapshot-eq :
      (s r : PikaStateDb d) (revid n : ℕ) (rs : List Revision)
      → find_revision revid s.valid_revisions ≡ some (rs, n)
      → revert s n ≡ some r
      → revert_to_snapshot s revid ≡ some (record r { valid_revisions = rs })
  unfolding revert_to_snapshot
  revert_to_snapshot-eq s r revid n rs found reverted =
      rw (found, revert_to_snapshot) (ap (with_revisions rs) reverted)

  pub revert_to_snapshot-Undoable :
      (s s' : PikaStateDb d)
      → Ready s
      → Ready s'
      → Undoable (snapshot s).1 s'
      → (t : PikaStateDb d) × (revert_to_snapshot s' (snapshot s).0 ≡ some t)
        × Ready t
        × Reverted t s
  unfolding snapshot truncate
  revert_to_snapshot-Undoable s s' ready ready' u =
      let (r, undone, back) = u.undo s' (Restores-refl s') in
      let reverted = revert-suffix (snapshot s).1 s' u.suffix u.entries undone in
      let found =
        ap (find_revision s.next_revision_id) u.revisions
        ∙ find_revision-append s.next_revision_id s.next_revision_id s.valid_revisions u.later
            (length s.journal.entries) ready.ids (omega arith) in
      let same = core-undo_entries u.suffix s' r undone in
      let t = record r {
        journal = truncate s.journal.entries;
        valid_revisions = s.valid_revisions;
      } in
      (
        t,
        revert_to_snapshot-eq s' _ s.next_revision_id _ s.valid_revisions found reverted,
        record {
          coherent = Coherent-of_core {r = t} {t = s'} same ready'.coherent;
          small = rw back.log_size ready.small;
          ids = rw (ap (λ (k : Core d). k.5) same) (
              IdsBelow-prefix _ s.valid_revisions _
                (IdsBelow-prefix _ _ u.later (rw u.revisions at ready'.ids)));
        },
        record {
          shows = record {
            same_db = back.same_db;
            same_block = back.same_block;
            accounts = back.accounts;
            slots = back.slots;
            suicided = back.suicided;
            logs = back.logs;
            log_size = back.log_size;
            preimages = back.preimages;
            refund = back.refund;
            access = back.access;
          };
          entries = refl;
          revisions = refl;
        },
      )
