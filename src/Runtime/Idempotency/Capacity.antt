-- ===== src/Runtime/Idempotency/Capacity.antt =====
-- How crates/runtime/src/idempotency.rs makes room for an entry and for the bytes of a response.
use imagegen_bridge.Prelude.{
  ℕ, zero, suc, Bool, true, false, ◌&&◌, not, none, some, length, ltb, if◌then◌else◌,
  saturating_add_u64, is_some,
}
use imagegen_bridge.Core.Error.{ErrorCode, bridge_error, with_retryable, Result, ok, err}
use imagegen_bridge.Runtime.Idempotency.Table.{RecordKey, key_eq, oldest}
use imagegen_bridge.Runtime.Idempotency.Entries.{Entry, IdempotencyState, remove}

module _ {R : Type 0} where
  -- A completed entry whose outcome is known.
  abbrev pub is_settled : RecordKey → Entry R → Bool
  is_settled key entry = is_some entry.expires_at && not entry.uncertain

  -- IdempotencyState::make_capacity
  unfoldable pub make_capacity : ℕ → IdempotencyState R → IdempotencyState R × Result (Unit {0})
  unfolding remove
  make_capacity maximum s =
      if ltb (length s.entries) maximum
      then (s, ok tt)
      else elim (oldest is_settled (λ e. e.last_access) s.entries) [
        | some (key, entry) ↦ (remove key s, ok tt)
        | none ↦ (
          s,
          err (
              with_retryable true
                (bridge_error ErrorCode.overloaded "idempotency capacity is exhausted")),
        )
      ]

  abbrev pub is_evictable : RecordKey → RecordKey → Entry R → Bool
  is_evictable exclude key entry =
      not (key_eq key exclude) && ltb 0 entry.retained_bytes && not entry.uncertain

  -- IdempotencyState::reserve_completed_bytes. Each round of the loop removes an entry, and `fuel` is
  -- above their number. The Boolean is whether there is room.
  unfoldable pub reserve_completed_bytes :
      ℕ → ℕ → ℕ → RecordKey → IdempotencyState R → IdempotencyState R × Bool
  unfolding remove
  reserve_completed_bytes zero incoming maximum exclude s = (s, false)
  reserve_completed_bytes (suc fuel) incoming maximum exclude s =
      elim (ltb maximum (saturating_add_u64 s.completed_bytes incoming)) [
        | false ↦ (s, true)
        | true ↦ elim (oldest (is_evictable exclude) (λ e. e.last_access) s.entries) [
          | none ↦ (s, false)
          | some (key, entry) ↦ reserve_completed_bytes fuel incoming maximum exclude (remove key s)
        ]
      ]
