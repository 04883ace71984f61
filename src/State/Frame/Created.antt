-- ===== src/State/Frame/Created.antt =====
-- The revert of `CreateAccount` of pkg/state/account.go, which deletes the account from the map.
use mathlib.Core.List.{append-nil}
use evm_executor.Prelude.{
  ◌≡◌, refl, ap, sym, ◌∙◌, true, some, [], ◌∷◌, ◌++◌, lookup, delete, lookup-delete, arith, length,
}
use evm_executor.Deps.{Deps}
use evm_executor.Storage.Ops.{Address}
use evm_executor.State.Account.{Account, new_account, is_empty}
use evm_executor.State.Journal.{create_object_change, append, truncate}
use evm_executor.State.Db.{PikaStateDb}
use evm_executor.State.Read.{load_account, get_account}
use evm_executor.State.Read.Results.{get_account-eq}
use evm_executor.State.Write.{put_account, create_account}
use evm_executor.State.Undo.{undo_entry, undo_entries}
use evm_executor.State.Snapshot.{snapshot, find_revision, revert_to_snapshot}
use evm_executor.State.Revert.Restores.{stored_in}
use evm_executor.State.Revert.Core.{Coherent-of_core}
use evm_executor.State.Frame.Invariant.{Ready}
use evm_executor.State.Frame.Reverts.{
  snapshot-Ready, revert-suffix, revert_to_snapshot-eq, find_revision-append,
}

module _ {d : Deps} where
  -- `CreateAccount` on a loaded, empty account.
  create_account-loaded :
      (s : PikaStateDb d) (addr : Address) (acc : Account)
      → lookup addr s.accounts ≡ some acc
      → is_empty acc ≡ true
      → create_account s addr ≡ put_account s (create_object_change addr) addr new_account
  unfolding create_account get_account load_account is_empty
  create_account-loaded s addr acc e h = rw (e, load_account) (rw h)

  undo-create :
      (s : PikaStateDb d) (addr : Address)
      → undo_entries (create_object_change addr ∷ []) s
        ≡ some (record s { accounts = delete addr s.accounts })
  unfolding undo_entries undo_entry
  undo-create s addr = refl

  put_account-entries :
      (s : PikaStateDb d) (addr : Address)
      → (put_account s (create_object_change addr) addr new_account).journal.entries
        ≡ s.journal.entries ++ create_object_change addr ∷ []
  unfolding append
  put_account-entries s addr = refl

  -- From a state with the invariant, whenever `CreateAccount` meets a loaded, empty account between
  -- a snapshot and its revert, the account afterwards reads as the stored one, or as a new one if
  -- none is stored: whatever was written to it before the snapshot is lost.
  pub create_reverts_to_stored :
      (s : PikaStateDb d) (addr : Address) (acc : Account)
      → Ready s
      → lookup addr s.accounts ≡ some acc
      → is_empty acc ≡ true
      → (t : PikaStateDb d) × (revert_to_snapshot
            (create_account (snapshot s).1 addr)
            (snapshot s).0
          ≡ some t)
        × ((get_account t addr).0 ≡ stored_in s addr)
  unfolding snapshot truncate
  create_reverts_to_stored s addr acc ready e h =
      let s1 = (snapshot s).1 in
      let s' = put_account s1 (create_object_change addr) addr new_account in
      let reverted =
        revert-suffix s s' (create_object_change addr ∷ []) (put_account-entries s1 addr)
          (undo-create s' addr) in
      let found =
        ap (find_revision s.next_revision_id) (sym (append-nil s'.valid_revisions))
        ∙ find_revision-append s.next_revision_id s.next_revision_id s.valid_revisions []
            (length s.journal.entries) ready.ids (omega arith) in
      let t : PikaStateDb d = record s' {
        accounts = delete addr s'.accounts;
        journal = truncate s.journal.entries;
        valid_revisions = s.valid_revisions;
      } in
      (
        t,
        rw (create_account-loaded s1 addr acc e h)
            (revert_to_snapshot-eq s' _ s.next_revision_id _ s.valid_revisions found reverted),
        get_account-eq t addr
              (Coherent-of_core {r = t} {t = s1} refl (snapshot-Ready s ready).coherent)
            ∙ ground (arith, lookup-delete addr addr s'.accounts),
      )
