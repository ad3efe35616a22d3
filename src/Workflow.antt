-- ===== src/Workflow.antt =====
-- The state of a workflow, and how it is kept in JSON files.
pub mod Json
pub mod Entity
pub mod Task
pub mod Plan
pub mod Execute
pub mod Verify
mod Tests
