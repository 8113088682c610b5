-- ===== src/Tests.antt =====
-- Runs on concrete inputs: the source's own tests, and the conditions of the theorems at an example.
mod Providers
mod Breaker
mod Negotiation
mod Queue
mod Stream
mod Idempotency
mod Fanout
mod Serve
mod Routing
mod Validation
