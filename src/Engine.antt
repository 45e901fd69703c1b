-- ===== src/Engine.antt =====
-- internal/engine: the execution of a process.
pub mod Approval
pub mod State
pub mod Assignees
pub mod Flow
pub mod Tasks
pub mod Activate
pub mod Reject
pub mod Complete
pub mod Activity
pub mod Start
pub mod Boundary
pub mod Deploy
pub mod Reassign
pub mod Trigger
pub mod Samples
pub mod Preserve
pub mod Advances
pub mod Fuel
mod Tests
