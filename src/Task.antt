-- ===== src/Task.antt =====
-- The task board: orchestration tasks, their table, and the service that moves them.
pub mod Entity
pub mod Repository
pub mod Board
mod Tests
