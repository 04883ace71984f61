-- ===== src/Tests.antt =====
-- Concrete inputs for the theorems: stand-ins for the third-party code, and a witness for each
-- theorem with hypotheses.
mod World
mod Frames
mod AccessLists
mod Commits
mod Pools
mod Blocks
mod Chain
mod Configs
mod Executor
mod Lives
