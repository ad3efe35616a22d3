-- ===== src/Fpel.antt =====
-- FPEL, the authorization gate of tasks.
pub mod Entity
pub mod Hash
pub mod Repository
pub mod Service
pub mod Gate
pub mod Seal
pub mod Mismatch
pub mod Stop
pub mod History
pub mod Safety
mod Tests
