-- ===== src/State/Snapshot.antt =====
-- `Snapshot` and `RevertToSnapshot` of pkg/state/statedb.go. `none` is a panic.
use evm_executor.Prelude.{
  ℕ, ◌+◌, Option, none, some, List, [], ◌∷◌, ◌++◌, length, ◌==◌, if◌then◌else◌,
}
use evm_executor.Deps.{Deps}
use evm_executor.State.Db.{Revision, PikaStateDb}
use evm_executor.State.Undo.{revert}

abbrev prepend : Revision → Option (List Revision × ℕ) → Option (List Revision × ℕ)
prepend r none = none
prepend r (some (before, index)) = some (r ∷ before, index)

-- The search for a revision: the revisions before the first with the id, and its journal index.
unfoldable pub find_revision : ℕ → List Revision → Option (List Revision × ℕ)
find_revision revid [] = none
find_revision revid (r ∷ rest) =
    if r.id == revid then some ([], r.journal_index) else prepend r (find_revision revid rest)

module _ {d : Deps} where
  unfoldable pub snapshot : PikaStateDb d → ℕ × PikaStateDb d
  snapshot s = (
    s.next_revision_id,
    record s {
      next_revision_id = s.next_revision_id + 1;
      valid_revisions =
          s.valid_revisions
          ++ record { id = s.next_revision_id; journal_index = length s.journal.entries } ∷ [];
    },
  )

  abbrev pub with_revisions : List Revision → Option (PikaStateDb d) → Option (PikaStateDb d)
  with_revisions revisions none = none
  with_revisions revisions (some s) = some (record s { valid_revisions = revisions })

  -- An id that is not valid panics.
  unfoldable pub revert_to_snapshot : PikaStateDb d → ℕ → Option (PikaStateDb d)
  revert_to_snapshot s revid = elim (find_revision revid s.valid_revisions) [
    | none ↦ none
    | some r ↦ with_revisions r.0 (revert s r.1)
  ]
