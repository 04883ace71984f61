-- ===== src/State/Revert/Restores.antt =====
-- When one state of pkg/state/statedb.go shows all that another showed.
use mathlib.Core.Path.{subst}
use mathlib.Core.List.{append_assoc, append-nil}
use evm_executor.Prelude.{◌≡◌, refl, sym, ap, ◌∙◌, some, List, [], ◌∷◌, ◌++◌, lookup}
use evm_executor.Deps.{Deps}
use evm_executor.Storage.Ops.{Address, Hash}
use evm_executor.Storage.State
use evm_executor.State.Account.{Account}
use evm_executor.State.Journal.{Entry}
use evm_executor.State.Db.{Revision, PikaStateDb}
use evm_executor.State.Read.{flag}
use evm_executor.State.Read.Spec.{or_new, slot_at}
use evm_executor.State.Undo.{undo_entry, undo_next, undo_entries}
use evm_executor.State.Revert.Maps.{
  SameAccounts, SameAccounts-refl, SameAccounts-trans, logs_in, SameAccess, SameAccess-refl,
  SameAccess-trans,
}

abbrev pub stored_in : {d : Deps} → PikaStateDb d → Address → Account
stored_in {d} s addr = or_new (State.get_account d s.db s.block_number addr)

-- `t` shows what `s` showed: the same accounts, slots, marks, logs, preimages, refund and access
-- list over the same store.
pub record Restores {d : Deps} (t s : PikaStateDb d) : Type 0 where
  pub same_db : t.db ≡ s.db
  pub same_block : t.block_number ≡ s.block_number
  pub accounts : SameAccounts (stored_in s) t.accounts s.accounts
  pub slots : (a : Address) (k : Hash) → slot_at t a k ≡ slot_at s a k
  pub suicided : (a : Address) → flag t.suicides a ≡ flag s.suicides a
  pub logs : (h : Hash) → logs_in t.logs h ≡ logs_in s.logs h
  pub log_size : t.log_size ≡ s.log_size
  pub preimages : (h : Hash) → lookup h t.preimages ≡ lookup h s.preimages
  pub refund : t.refund ≡ s.refund
  pub access : SameAccess t.access_list s.access_list

module _ {d : Deps} where
  pub Restores-refl : (s : PikaStateDb d) → Restores s s
  Restores-refl s = record {
    same_db = refl;
    same_block = refl;
    accounts = SameAccounts-refl s.accounts;
    slots = λ a k. refl;
    suicided = λ a. refl;
    logs = λ h. refl;
    log_size = refl;
    preimages = λ h. refl;
    refund = refl;
    access = SameAccess-refl s.access_list;
  }

  pub Restores-trans : {r t s : PikaStateDb d} → Restores r t → Restores t s → Restores r s
  Restores-trans {r} {t} p q = record {
    same_db = p.same_db ∙ q.same_db;
    same_block = p.same_block ∙ q.same_block;
    accounts =
        SameAccounts-trans
          (subst (λ base. SameAccounts base r.accounts t.accounts)
            (λ i a. or_new (State.get_account d (q.same_db i) (q.same_block i) a)) p.accounts)
          q.accounts;
    slots = λ a k. p.slots a k ∙ q.slots a k;
    suicided = λ a. p.suicided a ∙ q.suicided a;
    logs = λ h. p.logs h ∙ q.logs h;
    log_size = p.log_size ∙ q.log_size;
    preimages = λ h. p.preimages h ∙ q.preimages h;
    refund = p.refund ∙ q.refund;
    access = SameAccess-trans p.access q.access;
  }

-- `s'` came from `s` by steps whose journal entries `suffix` undo them: from every state that shows
-- what `s'` shows, undoing `suffix` does not panic and shows what `s` showed. Snapshots taken in
-- between stay behind those of `s`.
pub record Undoable {d : Deps} (s s' : PikaStateDb d) : Type 0 where
  pub suffix : List Entry
  pub entries : s'.journal.entries ≡ s.journal.entries ++ suffix
  pub undo :
      (t : PikaStateDb d)
      → Restores t s'
      → (r : PikaStateDb d) × (undo_entries suffix t ≡ some r) × Restores r s
  pub later : List Revision
  pub revisions : s'.valid_revisions ≡ s.valid_revisions ++ later

module _ {d : Deps} where
  undo_entries-append :
      (xs ys : List Entry) (t : PikaStateDb d) {r : PikaStateDb d}
      → undo_entries ys t ≡ some r
      → undo_entries (xs ++ ys) t ≡ undo_entries xs r
  unfolding undo_entries
  undo_entries-append [] ys t e = e
  undo_entries-append (x ∷ xs) ys t e = ap (undo_next x) (undo_entries-append xs ys t e)

  pub Undoable-refl : (s : PikaStateDb d) → Undoable s s
  unfolding undo_entries
  Undoable-refl s = record {
    suffix = [];
    entries = sym (append-nil s.journal.entries);
    undo = λ t h. (t, refl, h);
    later = [];
    revisions = sym (append-nil s.valid_revisions);
  }

  pub Undoable-trans : {s s' s'' : PikaStateDb d} → Undoable s s' → Undoable s' s'' → Undoable s s''
  Undoable-trans {s} p q = record {
    suffix = p.suffix ++ q.suffix;
    entries =
        q.entries
        ∙ ap (λ es. es ++ q.suffix) p.entries
        ∙ append_assoc s.journal.entries p.suffix q.suffix;
    undo = λ t h.
        let (m, undone, back) = q.undo t h in
        let (r, undone', back') = p.undo m back in
        (r, undo_entries-append p.suffix q.suffix t undone ∙ undone', back');
    later = p.later ++ q.later;
    revisions =
        q.revisions
        ∙ ap (λ rs. rs ++ q.later) p.revisions
        ∙ append_assoc s.valid_revisions p.later q.later;
  }

  -- A step that leaves the journal entries and the snapshots, and changes nothing that can be seen.
  pub Undoable-of_read :
      (s s' : PikaStateDb d)
      → s'.journal.entries ≡ s.journal.entries
      → s'.valid_revisions ≡ s.valid_revisions
      → Restores s' s
      → Undoable s s'
  unfolding undo_entries
  Undoable-of_read s s' j v back = record {
    suffix = [];
    entries = j ∙ sym (append-nil s.journal.entries);
    undo = λ t h. (t, refl, Restores-trans h back);
    later = [];
    revisions = v ∙ sym (append-nil s.valid_revisions);
  }

  -- A step that appends one entry.
  pub Undoable-of_entry :
      (s s' : PikaStateDb d) (entry : Entry)
      → s'.journal.entries ≡ s.journal.entries ++ entry ∷ []
      → s'.valid_revisions ≡ s.valid_revisions
      → ((t : PikaStateDb d)
          → Restores t s'
          → (r : PikaStateDb d) × (undo_entry entry t ≡ some r) × Restores r s)
      → Undoable s s'
  unfolding undo_entries
  Undoable-of_entry s s' entry e v undo = record {
    suffix = entry ∷ [];
    entries = e;
    undo = undo;
    later = [];
    revisions = v ∙ sym (append-nil s.valid_revisions);
  }
