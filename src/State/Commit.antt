-- ===== src/State/Commit.antt =====
-- `Commit` of pkg/state/statedb.go.
pub mod Written
pub mod Reads
use evm_executor.Prelude.{ℕ, ◌+◌, ◌%◌, List, [], ◌∷◌, ◌++◌, Map}
use evm_executor.Deps.{Deps}
use evm_executor.Storage.Redis.{Text, Result}
use evm_executor.Storage.Ops.{Address, Hash, WriteOp, write_account, write_storage, write_code}
use evm_executor.Storage.State
use evm_executor.State.Account.{Account, to_stored}
use evm_executor.State.Db.{PikaStateDb, word}

-- The three loops; each walks a map, in the order in which its entries stand.
unfoldable pub account_ops : ℕ → Map Account → List WriteOp
account_ops block_num [] = []
account_ops block_num ((addr, acc) ∷ rest) =
    write_account block_num addr (to_stored acc) ∷ account_ops block_num rest

unfoldable pub slot_ops : ℕ → Address → Map Hash → List WriteOp
slot_ops block_num addr [] = []
slot_ops block_num addr ((key, value) ∷ rest) =
    write_storage block_num addr key value ∷ slot_ops block_num addr rest

unfoldable pub storage_ops : ℕ → Map (Map Hash) → List WriteOp
storage_ops block_num [] = []
storage_ops block_num ((addr, slots) ∷ rest) =
    slot_ops block_num addr slots ++ storage_ops block_num rest

unfoldable pub code_ops : Map Text → List WriteOp
code_ops [] = []
code_ops ((code_hash, code) ∷ rest) = write_code code_hash code ∷ code_ops rest

module _ {d : Deps} where
  -- The block that a commit writes.
  abbrev pub next_block : PikaStateDb d → ℕ
  next_block s = (s.block_number + 1) % word

  unfoldable pub commit_ops : PikaStateDb d → List WriteOp
  commit_ops s =
      account_ops (next_block s) s.accounts
      ++ (storage_ops (next_block s) s.storages ++ code_ops s.codes)

  unfoldable pub commit : PikaStateDb d → PikaStateDb d × Result (Unit {0})
  commit s = let (db, r) = State.batch_write d s.db (commit_ops s) in (record s { db = db }, r)
