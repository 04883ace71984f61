-- ===== src/State/Commit/Written.antt =====
-- What the batch of `Commit` of pkg/state/statedb.go writes, piece by piece: the accounts, slots and
-- codes of its maps, whatever the order in which the maps are walked.
use evm_executor.Prelude.{
  ℕ, ◌≡◌, Bool, ◌&&◌, ◌||◌, Option, none, some, List, [], ◌∷◌, ◌++◌, Map, lookup, Distinct, ◌==◌,
  if◌then◌else◌, arith,
}
use evm_executor.Deps.{Deps}
use evm_executor.Storage.Redis.{Text}
use evm_executor.Storage.Key.Faithful.{StateKey, account, storage, contract_code, state_root}
use evm_executor.Storage.Ops.{Address, Hash, WriteOp}
use evm_executor.Storage.Batch.{later, written_by, last_written, same_key}
use evm_executor.State.Account.{Account, to_stored}
use evm_executor.State.Db.{PikaStateDb}
use evm_executor.State.Read.{written_slot}
use evm_executor.State.Commit.{account_ops, slot_ops, storage_ops, code_ops, next_block, commit_ops}

-- No map inside holds a key twice.
abbrev pub AllDistinct : Map (Map Hash) → Type 0
AllDistinct [] = Unit {0}
AllDistinct ((_, slots) ∷ rest) = Distinct slots × AllDistinct rest

-- A write for block `n` goes to that block and to the latest state, which has number 0.
abbrev pub reaches : ℕ → ℕ → Bool
reaches n m = n == m || 0 == m

module _ (d : Deps) where
  abbrev account_text : Option Account → Option Text
  account_text none = none
  account_text (some acc) = d.marshal (to_stored acc)

  abbrev slot_text : Option Hash → Option Text
  slot_text none = none
  slot_text (some value) = some (d.hex_hash value)

  account_part : ℕ → Map Account → StateKey → Option Text
  account_part n accounts (account m a) =
      if reaches n m then account_text (lookup a accounts) else none
  account_part n accounts _ = none

  slot_part : ℕ → Address → Map Hash → StateKey → Option Text
  slot_part n a slots (storage m b x) =
      if reaches n m && a == b then slot_text (lookup x slots) else none
  slot_part n a slots _ = none

  storage_part : ℕ → Map (Map Hash) → StateKey → Option Text
  storage_part n storages (storage m b x) =
      if reaches n m then slot_text (written_slot storages b x) else none
  storage_part n storages _ = none

  code_part : Map Text → StateKey → Option Text
  code_part codes (contract_code h) = lookup h codes
  code_part codes _ = none

  last_written-append :
      (xs ys : List WriteOp) (k : StateKey)
      → last_written d (xs ++ ys) k ≡ later (last_written d ys k) (last_written d xs k)
  unfolding last_written
  last_written-append [] ys k = ground arith
  last_written-append (x ∷ xs) ys k = ground (arith, last_written-append xs ys k)

  account_ops-part :
      (n : ℕ) (accounts : Map Account) (k : StateKey)
      → Distinct accounts
      → last_written d (account_ops n accounts) k ≡ account_part n accounts k
  unfolding last_written account_ops written_by same_key lookup account_part
  account_ops-part n [] k h = ground arith
  account_ops-part n ((b, acc) ∷ accounts) k h = ground (arith, account_ops-part n accounts k h.1)

  slot_ops-part :
      (n : ℕ) (a : Address) (slots : Map Hash) (k : StateKey)
      → Distinct slots
      → last_written d (slot_ops n a slots) k ≡ slot_part n a slots k
  unfolding last_written slot_ops written_by same_key lookup slot_part
  slot_ops-part n a [] k h = ground arith
  slot_ops-part n a ((x, value) ∷ slots) k h = ground (arith, slot_ops-part n a slots k h.1)

  storage_ops-part :
      (n : ℕ) (storages : Map (Map Hash)) (k : StateKey)
      → Distinct storages
      → AllDistinct storages
      → last_written d (storage_ops n storages) k ≡ storage_part n storages k
  unfolding last_written storage_ops lookup slot_part storage_part written_slot
  storage_ops-part n [] k h i = ground arith
  storage_ops-part n ((a, slots) ∷ storages) k h i = ground (
    arith,
    last_written-append (slot_ops n a slots) (storage_ops n storages) k,
    slot_ops-part n a slots k i.0,
    storage_ops-part n storages k h.1 i.1,
  )

  code_ops-part :
      (codes : Map Text) (k : StateKey)
      → Distinct codes
      → last_written d (code_ops codes) k ≡ code_part codes k
  unfolding last_written code_ops written_by same_key lookup code_part
  code_ops-part [] k h = ground arith
  code_ops-part ((c, code) ∷ codes) k h = ground (arith, code_ops-part codes k h.1)

-- The maps hold no key twice, as Go maps do not.
pub record IsMaps {d : Deps} (s : PikaStateDb d) : Type 0 where
  pub accounts : Distinct s.accounts
  pub storages : Distinct s.storages
  pub slots : AllDistinct s.storages
  pub codes : Distinct s.codes

-- What a commit of `s` writes under a piece of state.
unfoldable pub committed_text : {d : Deps} → PikaStateDb d → StateKey → Option Text
committed_text {d} s (account m a) =
    if reaches (next_block s) m then account_text d (lookup a s.accounts) else none
committed_text {d} s (storage m a x) =
    if reaches (next_block s) m then slot_text d (written_slot s.storages a x) else none
committed_text s (contract_code h) = lookup h s.codes
committed_text s (state_root n) = none

-- For a state whose maps hold no key twice, the batch that `Commit` builds writes exactly the
-- accounts, slots and codes of the maps, under the next block and the latest state, whatever the
-- order of the entries.
pub commit_ops-written :
    {d : Deps} (s : PikaStateDb d) (k : StateKey)
    → IsMaps s
    → last_written d (commit_ops s) k ≡ committed_text s k
unfolding commit_ops committed_text account_part storage_part code_part
commit_ops-written {d} s k maps =
    let n = next_block s in
    ground (
      arith,
      last_written-append d (account_ops n s.accounts)
          (storage_ops n s.storages ++ code_ops s.codes) k,
      last_written-append d (storage_ops n s.storages) (code_ops s.codes) k,
      account_ops-part d n s.accounts k maps.accounts,
      storage_ops-part d n s.storages k maps.storages maps.slots,
      code_ops-part d s.codes k maps.codes,
    )
