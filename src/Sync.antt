-- ===== src/Sync.antt =====
-- The journal of changes of observations, and its incremental export.
pub mod Entity
pub mod Repository
pub mod Export
mod Tests
