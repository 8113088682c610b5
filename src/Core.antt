-- ===== src/Core.antt =====
-- crates/core: the provider-neutral contract.
pub mod Error
pub mod Parameters
pub mod Request
pub mod Response
pub mod Capabilities
pub mod Negotiation
pub mod Validation
