-- ===== src/Payments.antt =====
-- Online payment of invoices through Stripe: apps/api/src/payments.
pub mod Settings
pub mod Oauth
pub mod Checkout
pub mod Webhook
pub mod Changes
pub mod Operations
pub mod Effects
pub mod History
pub mod Tests
