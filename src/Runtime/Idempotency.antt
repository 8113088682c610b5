-- ===== src/Runtime/Idempotency.antt =====
-- crates/runtime/src/idempotency.rs. Each method of the coordinator holds its mutex for its whole body,
-- so an execution is a sequence of method calls. `Instant` and `Duration` are numbers of nanoseconds,
-- whose sum does not overflow, and the clock's reading is an argument. The table is a list of its
-- entries, whose order stands for the order in which the `HashMap` is iterated. `usize` has 64 bits.
pub mod Table
pub mod Entries
pub mod Capacity
pub mod Completion
pub mod Coordinator
pub mod Bounds
pub mod Stable
pub mod Uniqueness
pub mod Flight
pub mod Answers
