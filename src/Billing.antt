-- ===== src/Billing.antt =====
-- The portal's own subscriptions: apps/api/src/billing and the guard of plan limits.
pub mod State
pub mod Plans
pub mod Events
pub mod Repeated
pub mod Tests
