-- ===== src/State/Read/Spec.antt =====
-- What the reads of pkg/state/statedb.go mean without the caches: a value written in this block,
-- else the stored one, else the zero value.
use evm_executor.Prelude.{ℕ, Option, none, some, [], Map, lookup}
use evm_executor.Deps.{Deps}
use evm_executor.Storage.Redis.{Text, Result, ok, err}
use evm_executor.Storage.Ops.{Address, Hash, StoredAccount}
use evm_executor.Storage.State
use evm_executor.State.Account.{Account, new_account, from_stored}
use evm_executor.State.Db.{PikaStateDb}
use evm_executor.State.Read.{written_slot}

abbrev pub or_zero : Result Hash → Hash
or_zero (ok v) = v
or_zero (err e) = 0

abbrev pub or_no_code : Result Text → Text
or_no_code (ok c) = c
or_no_code (err e) = []

abbrev pub or_new : Result StoredAccount → Account
or_new (ok a) = from_stored a
or_new (err e) = new_account

abbrev pub or_else {ℓ} : {A : Type ℓ} → Option A → A → A
or_else none a = a
or_else (some b) a = b

module _ (d : Deps) where
  abbrev pub account_view : d.redis.Db → ℕ → Map Account → Address → Account
  account_view db block_num accounts addr =
      or_else (lookup addr accounts) (or_new (State.get_account d db block_num addr))

  abbrev pub slot_view : d.redis.Db → ℕ → Map (Map Hash) → Address → Hash → Hash
  slot_view db block_num storages addr key =
      or_else (written_slot storages addr key) (or_zero (State.get_storage d db block_num addr key))

  abbrev pub code_view : d.redis.Db → Map Text → Hash → Text
  code_view db codes code_hash =
      or_else (lookup code_hash codes) (or_no_code (State.get_code d db code_hash))

module _ {d : Deps} where
  abbrev pub account_at : PikaStateDb d → Address → Account
  account_at s addr = account_view d s.db s.block_number s.accounts addr

  abbrev pub slot_at : PikaStateDb d → Address → Hash → Hash
  slot_at s addr key = slot_view d s.db s.block_number s.storages addr key

  abbrev pub code_of : PikaStateDb d → Hash → Text
  code_of s code_hash = code_view d s.db s.codes code_hash
