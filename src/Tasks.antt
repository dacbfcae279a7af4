-- ===== src/Tasks.antt =====
-- The tasks of projects and the decisions that clients vote on: apps/api/src/tasks.
pub mod Creating
pub mod Changing
pub mod Voting
pub mod Ballots
pub mod Changes
pub mod Operations
pub mod Effects
pub mod Order
pub mod History
pub mod Tests
