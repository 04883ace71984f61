-- ===== src/Executor.antt =====
-- pkg/executor: how blocks are executed.
pub mod Deps
pub mod Codec
pub mod Hashes
pub mod Apply
pub mod Process
pub mod Loop
pub mod Run
pub mod New
pub mod Life
