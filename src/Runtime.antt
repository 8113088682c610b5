-- ===== src/Runtime.antt =====
-- crates/runtime: what stands between a caller and the providers.
pub mod Circuit
pub mod Queue
pub mod Idempotency
pub mod Fanout
pub mod Routing
