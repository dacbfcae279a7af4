-- ===== src/TimeEntries.antt =====
-- Time tracking: apps/api/src/time-entries.
pub mod Timer
pub mod Edits
pub mod Captures
pub mod Double
pub mod Number
pub mod Invoicing
pub mod Running
pub mod Changes
pub mod Operations
pub mod History
pub mod Tests
