-- ===== src/Invoices.antt =====
-- Invoices: apps/api/src/invoices.
pub mod Creating
pub mod Recording
pub mod Changing
pub mod Reading
pub mod Tests
