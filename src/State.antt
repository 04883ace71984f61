-- ===== src/State.antt =====
-- pkg/state: the state database that the EVM runs on.
pub mod Account
pub mod AccessList
pub mod Journal
pub mod Db
pub mod Read
pub mod Write
pub mod Undo
pub mod Snapshot
pub mod Commit
pub mod Revert
pub mod Logs
pub mod Frame
