-- ===== src/State/Frame.antt =====
-- How the EVM uses the state database: call frames. A frame takes a snapshot, runs its body, and is
-- kept or reverted to the snapshot. The calls are those of pkg/state/statedb.go but
-- `AddSlotToAccessList`, whose journal entries are the subject of State/Frame/SlotEntries.antt.
pub mod Invariant
pub mod Opened
pub mod Carries
pub mod Programs
pub mod Reads
pub mod Moved
pub mod Reverts
pub mod Runs
pub mod Getters
pub mod SlotEntries
pub mod Created
use evm_executor.Prelude.{ℕ, Bool, true, false, Option, none, some}
use evm_executor.Prelude.Int.{ℤ}
use evm_executor.Deps.{Deps}
use evm_executor.Storage.Redis.{Text}
use evm_executor.Storage.Ops.{Address, Hash}
use evm_executor.State.Db.{Log, PikaStateDb}
use evm_executor.State.Read
use evm_executor.State.Write
use evm_executor.State.Snapshot.{snapshot, revert_to_snapshot}

pub data Op : Type 0 where
  create_account suicide add_address read_account read_code : Address → Op
  sub_balance add_balance : Address → ℤ → Op
  set_nonce : Address → ℕ → Op
  set_code : Address → Text → Op
  set_state : Address → Hash → Hash → Op
  read_state : Address → Hash → Op
  add_log : Log → Op
  add_refund sub_refund : ℕ → Op
  add_preimage : Hash → Text → Op

-- A frame's body, and what follows the frame; the flag says whether the frame is reverted.
pub data Program : Type 0 where
  stop : Program
  act : Op → Program → Program
  call : Program → Bool → Program → Program

module _ {d : Deps} where
  unfoldable pub step : PikaStateDb d → Op → PikaStateDb d
  step s (create_account a) = Write.create_account s a
  step s (suicide a) = (Write.suicide s a).1
  step s (add_address a) = Write.add_address_to_access_list s a
  step s (read_account a) = (Read.get_account s a).1
  step s (read_code a) = (Read.get_code s a).1
  step s (sub_balance a n) = Write.sub_balance s a n
  step s (add_balance a n) = Write.add_balance s a n
  step s (set_nonce a n) = Write.set_nonce s a n
  step s (set_code a code) = Write.set_code s a code
  step s (set_state a k v) = Write.set_state s a k v
  step s (read_state a k) = (Read.get_state s a k).1
  step s (add_log l) = Write.add_log s l
  step s (add_refund n) = Write.add_refund s n
  step s (sub_refund n) = Write.sub_refund s n
  step s (add_preimage h t) = Write.add_preimage s h t

  infixl 5 ◌>>=◌
  abbrev pub ◌>>=◌ :
      Option (PikaStateDb d) → (PikaStateDb d → Option (PikaStateDb d)) → Option (PikaStateDb d)
  none >>= f = none
  some s >>= f = f s

  -- The end of a frame: nothing, or `RevertToSnapshot`.
  unfoldable pub leave : Bool → ℕ → PikaStateDb d → Option (PikaStateDb d)
  leave true id s = revert_to_snapshot s id
  leave false id s = some s

  unfoldable pub run : Program → PikaStateDb d → Option (PikaStateDb d)
  run stop s = some s
  run (act op rest) s = run rest (step s op)
  run (call body reverted rest) s =
      let (id, s') = snapshot s in run body s' >>= leave reverted id >>= run rest
