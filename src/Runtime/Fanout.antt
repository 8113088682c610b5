-- ===== src/Runtime/Fanout.antt =====
-- crates/runtime/src/fanout/mod.rs, which turns one request for many outputs into bounded calls of a
-- provider with a lower native count. The clock's readings and the provider's answers are arguments.
pub mod Chunks
pub mod Plan
pub mod Merge
pub mod Aggregate
pub mod Batch
pub mod Coverage
pub mod Schedule
pub mod Outputs
pub mod Ending
pub mod Serve
