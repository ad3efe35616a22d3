-- ===== src/Poll.antt =====
-- Autonomous polling: runs of agents for the tasks of the board.
pub mod Key
pub mod Entity
pub mod Repository
pub mod World
pub mod Host
pub mod Stop
pub mod Spawn
pub mod Cycle
pub mod Frame
pub mod Follows
pub mod History
mod Tests
