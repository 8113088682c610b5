-- ===== src/Runtime/Idempotency/Completion.antt =====
-- `complete` of crates/runtime/src/idempotency.rs: the response of a leader is kept, or given up.
use imagegen_bridge.Prelude.{
  ℕ, suc, ◌+◌, Bool, true, false, not, none, some, length, ltb, if◌then◌else◌, text_eq,
  saturating_add_u64,
}
use imagegen_bridge.Core.Error.{
  ErrorCode, Json, BridgeError, bridge_error, with_retryable, with_detail,
}
use imagegen_bridge.Runtime.Idempotency.Table.{RecordKey, find, update}
use imagegen_bridge.Runtime.Idempotency.Entries.{
  IdempotencyConfig, IdempotencyToken, EntryOutcome, IdempotencyState,
}
use imagegen_bridge.Runtime.Idempotency.Capacity.{reserve_completed_bytes}

abbrev pub unreplayable_error : BridgeError
unreplayable_error = with_detail "outcome" (Json.text "completed_unreplayable") (
    with_retryable false
      (bridge_error ErrorCode.overloaded "completed response is too large for idempotent replay"))

module _ {R : Type 0} where
  -- The entry of a response that is not kept.
  unfoldable pub give_up :
      IdempotencyConfig → ℕ → RecordKey → IdempotencyState R → IdempotencyState R
  give_up c now key s = elim (find key s.entries) [
    | none ↦ s
    | some entry ↦ record s {
      entries =
          update key
            (record entry {
              expires_at = some (now + c.completed_ttl);
              uncertain = true;
              retained_bytes = 0;
              outcome = EntryOutcome.unknown unreplayable_error;
            })
            s.entries;
    }
  ]

  -- The entry of a response that is kept for replay.
  unfoldable pub keep :
      IdempotencyConfig → ℕ → RecordKey → R → ℕ → IdempotencyState R → IdempotencyState R
  keep c now key response retained_bytes s = elim (find key s.entries) [
    | none ↦ record s { access_clock = saturating_add_u64 s.access_clock 1 }
    | some entry ↦ record s {
      access_clock = saturating_add_u64 s.access_clock 1;
      completed_bytes = saturating_add_u64 s.completed_bytes retained_bytes;
      entries =
          update key
            (record entry {
              expires_at = some (now + c.completed_ttl);
              uncertain = false;
              retained_bytes = retained_bytes;
              last_access = saturating_add_u64 s.access_clock 1;
              outcome = EntryOutcome.completed response;
            })
            s.entries;
    }
  ]

  -- Whether the token is for the entry of its key.
  unfoldable pub is_current : IdempotencyToken → IdempotencyState R → Bool
  is_current token s = elim (find token.record_key s.entries) [
    | none ↦ false
    | some entry ↦ text_eq entry.fingerprint token.fingerprint
  ]

  -- IdempotencyState::complete
  unfoldable pub complete_at :
      IdempotencyConfig → ℕ → IdempotencyToken → R → ℕ → IdempotencyState R → IdempotencyState R
  unfolding is_current give_up keep
  complete_at c now token response retained_bytes s =
      if not (is_current token s)
      then s
      else if ltb c.max_completed_bytes retained_bytes
      then give_up c now token.record_key s
      else let (s', room) =
          reserve_completed_bytes (suc (length s.entries)) retained_bytes c.max_completed_bytes
            token.record_key s in
        if room
        then keep c now token.record_key response retained_bytes s'
        else give_up c now token.record_key s'
