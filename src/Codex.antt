-- ===== src/Codex.antt =====
-- crates/codex-responses: the provider that reads its answers from a stream of server-sent events.
pub mod Sse
