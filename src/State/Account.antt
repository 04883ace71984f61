-- ===== src/State/Account.antt =====
-- `Account` of pkg/state/account.go, and its stored form.
use evm_executor.Prelude.{ℕ, Bool, ◌&&◌, ◌==◌}
use evm_executor.Prelude.Int.{ℤ, pos, is_zero}
use evm_executor.Storage.Ops.{Hash, StoredAccount}

pub record Account : Type 0 where
  pub balance : ℤ
  pub nonce : ℕ
  pub code_hash : Hash
  pub root : Hash

-- `NewAccount`
abbrev pub new_account : Account
new_account = record { balance = pos 0; nonce = 0; code_hash = 0; root = 0 }

-- `Copy`; the copied balance is a new `big.Int` with the same value
unfoldable pub copy : Account → Account
copy a = record { balance = a.balance; nonce = a.nonce; code_hash = a.code_hash; root = a.root }

-- `Empty`
unfoldable pub is_empty : Account → Bool
is_empty a = a.nonce == 0 && is_zero a.balance && a.code_hash == 0

-- the literals of `getAccount` and of `Commit`
abbrev pub from_stored : StoredAccount → Account
from_stored s = record {
  balance = s.balance;
  nonce = s.nonce;
  code_hash = s.code_hash;
  root = s.storage_root;
}

abbrev pub to_stored : Account → StoredAccount
to_stored a = record {
  balance = a.balance;
  nonce = a.nonce;
  code_hash = a.code_hash;
  storage_root = a.root;
}
