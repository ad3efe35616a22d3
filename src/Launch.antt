-- ===== src/Launch.antt =====
-- The agent launch lifecycle.
pub mod Entity
pub mod Registry
pub mod Service
mod Tests
