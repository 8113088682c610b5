-- ===== src/Core/Validation.antt =====
-- crates/core/src/validation.rs: what a request must satisfy before a provider sees it. The closure that
-- gathers the issues is the list of those that it is called with, in the order of the calls.
pub mod Names
pub mod Rules
pub mod Inputs
pub mod Outputs
pub mod Report
pub mod Bounds
pub mod Sorted
pub mod Accepted
