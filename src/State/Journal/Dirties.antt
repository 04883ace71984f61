-- ===== src/State/Journal/Dirties.antt =====
-- The two ways in which the journal of pkg/state/account.go keeps its map of dirty accounts: `append`
-- notes one entry, and `revert` builds the map anew.
use mathlib.Core.List.{append-nil, append_assoc}
use evm_executor.Prelude.{
  ℕ, ◌+◌, ◌≡◌, sym, ap, ◌∙◌, List, [], ◌∷◌, ◌++◌, Map, length, length-append, arith,
}
use evm_executor.State.Journal.{
  Entry, Journal, new_journal, note_dirty, dirtied, append, rebuild, truncate,
}

-- The journal of a run that appends the entries in their order.
unfoldable pub append_all : Journal → List Entry → Journal
append_all j [] = j
append_all j (entry ∷ rest) = append_all (append j entry) rest

append_all-rebuild :
    (done : List Entry) (dirties : Map ℕ) (rest : List Entry)
    → append_all (record { entries = done; dirties = dirties }) rest
      ≡ record { entries = done ++ rest; dirties = rebuild (length done) rest dirties }
unfolding append_all rebuild append
append_all-rebuild done dirties [] =
    ap {B = Journal} (λ es. record { entries = es; dirties = dirties }) (sym (append-nil done))
append_all-rebuild done dirties (entry ∷ rest) =
    let here = done ++ entry ∷ [] in
    let longer : length here ≡ length done + 1 = length-append done (entry ∷ []) in
    let step : append (record { entries = done; dirties = dirties }) entry
        ≡ record { entries = here; dirties = note_dirty (dirtied entry) (length done) dirties } =
      ap {B = Journal}
        (λ n. record { entries = here; dirties = note_dirty (dirtied entry) n dirties })
        (omega arith) in
    ap (λ j. append_all j rest) step
    ∙ append_all-rebuild here _ rest
    ∙ ground (arith, longer, append_assoc done (entry ∷ []) rest)

-- The journal that a revert leaves, with its map built anew, is the one that appending the kept
-- entries one by one makes.
pub truncate-append_all : (kept : List Entry) → truncate kept ≡ append_all new_journal kept
unfolding truncate
truncate-append_all kept = sym (append_all-rebuild [] [] kept)
