-- ===== src/State/Revert/Core.antt =====
-- The store, the caches and the snapshot counter while the journal of pkg/state/account.go is undone.
use mathlib.Core.Path.{subst}
use mathlib.Core.Option.{some-injective}
use evm_executor.Prelude.{ℕ, ◌≡◌, ap, sym, ◌∙◌, some, List, [], ◌∷◌, lookup, Option-cases, inl, inr}
use evm_executor.Deps.{Deps}
use evm_executor.Lru.{Agrees}
use evm_executor.Storage.Key.{cache_key}
use evm_executor.Storage.Ops.{Address, Hash}
use evm_executor.Storage.State
use evm_executor.State.AccessList.{delete_slot}
use evm_executor.State.Journal.{Entry}
use evm_executor.State.Db.{PikaStateDb}
use evm_executor.State.Read.Coherent.{Coherent, answer}
use evm_executor.State.Write.{logs_of}
use evm_executor.State.Undo.{drop_log, undo_entry, undo_entries, undo_next}

abbrev pub Core : Deps → Type 0
Core d = d.redis.Db × ℕ × d.account_lru.Cache × d.slot_lru.Cache × d.code_lru.Cache × ℕ

module _ {d : Deps} where
  abbrev pub core : PikaStateDb d → Core d
  core s = (s.db, s.block_number, s.state_cache, s.storage_cache, s.code_cache, s.next_revision_id)

  pub Coherent-of_core : {r t : PikaStateDb d} → core r ≡ core t → Coherent t → Coherent r
  Coherent-of_core e h = record {
    account_level =
        subst
          (λ (k : Core d).
            Agrees d.account_lru (λ a. a) (λ a. answer (State.get_account d k.0 k.1 a)) k.2)
          (sym e) h.account_level;
    slot_level =
        subst
          (λ (k : Core d).
            Agrees d.slot_lru (λ p. cache_key d.hex_address d.hex_hash p.0 p.1)
              (λ (p : Address × Hash). answer (State.get_storage d k.0 k.1 p.0 p.1)) k.3)
          (sym e) h.slot_level;
    code_level =
        subst
          (λ (k : Core d). Agrees d.code_lru (λ h. h) (λ h. answer (State.get_code d k.0 h)) k.4)
          (sym e) h.code_level;
  }

  core-undo_entry : (e : Entry) (t r : PikaStateDb d) → undo_entry e t ≡ some r → core r ≡ core t
  unfolding undo_entry
  core-undo_entry (Entry.add_log_change th) t r h =
      elim (Option-cases (drop_log t.logs th (logs_of (lookup th t.logs)))) [
        | inl fails ↦ cc (rw (fails, undo_entry) at h)
        | inr (logs, found) ↦ sym (ap core (some-injective _ _ (rw (found, undo_entry) at h)))
      ]
  core-undo_entry (Entry.access_list_add_slot_change a k) t r h =
      elim (Option-cases (delete_slot t.access_list a k)) [
        | inl fails ↦ cc (rw (fails, undo_entry) at h)
        | inr (l, found) ↦ sym (ap core (some-injective _ _ (rw (found, undo_entry) at h)))
      ]
  core-undo_entry e t r h = sym (ap core (some-injective _ _ h))

  pub core-undo_entries :
      (es : List Entry) (t r : PikaStateDb d) → undo_entries es t ≡ some r → core r ≡ core t
  unfolding undo_entries
  core-undo_entries [] t r h = sym (ap core (some-injective _ _ h))
  core-undo_entries (e ∷ es) t r h = elim (Option-cases (undo_entries es t)) [
    | inl fails ↦ cc
    | inr (m, found) ↦
        core-undo_entry e m r (sym (ap (undo_next e) found) ∙ h) ∙ core-undo_entries es t m found
  ]
