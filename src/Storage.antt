-- ===== src/Storage.antt =====
-- pkg/storage: the key-value store behind the executor.
pub mod Redis
pub mod Key
pub mod Ops
pub mod State
pub mod Batch
pub mod Blocks
