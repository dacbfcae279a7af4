-- ===== src/Documents.antt =====
-- Documents to be approved or signed: apps/api/src/documents.
pub mod State
pub mod Lookup
pub mod Lifecycle
pub mod Verdict
pub mod Embedding
pub mod Signing
pub mod Versions
pub mod Tokens
pub mod Tasks
pub mod Transitions
pub mod Tests
