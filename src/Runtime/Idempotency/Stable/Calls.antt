-- ===== src/Runtime/Idempotency/Stable/Calls.antt =====
-- `complete` and `fail` of crates/runtime/src/idempotency.rs under a stable property of the table.
use imagegen_bridge.Prelude.{ℕ, suc, length, Bool-cases, Option-cases, inl, inr, ltb, text_eq}
use imagegen_bridge.Core.Error.{BridgeError}
use imagegen_bridge.Runtime.Idempotency.Table.{RecordKey, find}
use imagegen_bridge.Runtime.Idempotency.Entries.{
  IdempotencyConfig, IdempotencyToken, IdempotencyState, take_out,
}
use imagegen_bridge.Runtime.Idempotency.Capacity.{reserve_completed_bytes}
use imagegen_bridge.Runtime.Idempotency.Completion.{give_up, keep, is_current, complete_at}
use imagegen_bridge.Runtime.Idempotency.Coordinator.{Codec, is_unknown, fail_current, fail}
use imagegen_bridge.Runtime.Idempotency.Stable.{Stability, reserve_completed_bytes-Holds}

module _ {R : Type 0} (law : Stability R) (c : IdempotencyConfig) where
  give_up-Holds :
      (now : ℕ) (key : RecordKey) (s : IdempotencyState R)
      → law.Allowed key
      → law.Holds s.entries
      → law.Holds (give_up c now key s).entries
  unfolding give_up
  give_up-Holds now key s allowed h = elim (Option-cases (find key s.entries)) [
    | inl e ↦ rw (e, give_up) h
    | inr (entry, e) ↦ rw (e, give_up) (law.update_holds key _ s.entries allowed h)
  ]

  keep-Holds :
      (now : ℕ) (key : RecordKey) (response : R) (bytes : ℕ) (s : IdempotencyState R)
      → law.Allowed key
      → law.Holds s.entries
      → law.Holds (keep c now key response bytes s).entries
  unfolding keep
  keep-Holds now key response bytes s allowed h = elim (Option-cases (find key s.entries)) [
    | inl e ↦ rw (e, keep) h
    | inr (entry, e) ↦ rw (e, keep) (law.update_holds key _ s.entries allowed h)
  ]

  pub complete_at-Holds :
      (now : ℕ) (token : IdempotencyToken) (response : R) (bytes : ℕ) (s : IdempotencyState R)
      → law.Allowed token.record_key
      → law.Holds s.entries
      → law.Holds (complete_at c now token response bytes s).entries
  unfolding complete_at
  complete_at-Holds now token response bytes s allowed h =
      let key = token.record_key in
      let limit = c.max_completed_bytes in
      let fuel = suc (length s.entries) in
      let s' = (reserve_completed_bytes fuel bytes limit key s).0 in
      let h' : law.Holds s'.entries = reserve_completed_bytes-Holds law fuel bytes limit key s h in
      elim (Bool-cases (is_current token s)) [
        | inr other ↦ rw (other, complete_at) h
        | inl current ↦ elim (Bool-cases (ltb limit bytes)) [
          | inl large ↦ rw (current, large, complete_at) (give_up-Holds now key s allowed h)
          | inr small ↦ elim (Bool-cases (reserve_completed_bytes fuel bytes limit key s).1) [
            | inr full ↦
                rw (current, small, full, complete_at) (give_up-Holds now key s' allowed h')
            | inl room ↦
                rw (current, small, room, complete_at)
                  (keep-Holds now key response bytes s' allowed h')
          ]
        ]
      ]

  pub fail-Holds :
      (codec : Codec R) (token : IdempotencyToken) (e : BridgeError) (now : ℕ)
      (s : IdempotencyState R)
      → law.Allowed token.record_key
      → law.Holds s.entries
      → law.Holds (fail codec c token e now s).entries
  unfolding fail fail_current take_out
  fail-Holds codec token e now s allowed h =
      let key = token.record_key in
      elim (Option-cases (find key s.entries)) [
        | inl absent ↦ rw (absent, fail) h
        | inr (entry, found) ↦ elim (Bool-cases (text_eq entry.fingerprint token.fingerprint)) [
          | inr other ↦ rw (found, other, fail) h
          | inl same ↦ elim (Bool-cases (is_unknown e)) [
            | inl uncertain ↦
                rw (found, same, uncertain, fail, fail_current)
                  (law.update_holds key _ s.entries allowed h)
            | inr certain ↦
                rw (found, same, certain, fail, fail_current)
                  (law.delete_holds key s.entries allowed h)
          ]
        ]
      ]
