-- ===== src/State/Revert.antt =====
-- The calls of pkg/state/statedb.go beside the journal entries of pkg/state/account.go that undo them.
pub mod Maps
pub mod Restores
pub mod Accounts
pub mod Contracts
pub mod Others
pub mod Core
