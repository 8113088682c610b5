-- ===== src/Runtime/Idempotency/Stable.antt =====
-- What stays true of the table of crates/runtime/src/idempotency.rs while entries of some keys are
-- removed and written.
pub mod Calls
use imagegen_bridge.Prelude.{
  ℕ, zero, suc, ◌+◌, ◌≤◌, ◌<◌, String, ◌≡◌, refl, Bool, true, false, Option, none, some, List, [],
  ◌∷◌, arith, length, Bool-cases, Option-cases, All, is_some, u64_max, inl, inr, ltb, text_eq,
  saturating_add_u64, saturating_sub,
}
use imagegen_bridge.Core.Error.{
  BridgeError, Result, Result-cases, Json, with_detail, with_retryable, ok, err, ◌>>◌,
}
use imagegen_bridge.Core.Request.{ImageRequest}
use imagegen_bridge.Runtime.Idempotency.Table.{RecordKey, key_eq, find, update, delete, oldest}
use imagegen_bridge.Runtime.Idempotency.Table.Laws.{
  total, total-delete, length-delete, total-update, length-update, oldest-is_some,
}
use imagegen_bridge.Runtime.Idempotency.Entries.{
  IdempotencyConfig, IdempotencyToken, EntryOutcome, Entry, IdempotencyState, IdempotencyAction,
  take_out, remove, dismiss, expire, expire_all, cleanup, is_expired, stale_keys, empty_state,
  new_coordinator,
}
use imagegen_bridge.Runtime.Idempotency.Capacity.{
  make_capacity, reserve_completed_bytes, is_settled, is_evictable,
}
use imagegen_bridge.Runtime.Idempotency.Completion.{
  unreplayable_error, give_up, keep, is_current, complete_at,
}
use imagegen_bridge.Runtime.Idempotency.Coordinator.{
  Codec, join, lead, begin_locked, begin, validate_scope, request_fingerprint, complete,
  response_weight, is_unknown, fail_current, fail, Event, handle, history,
}

-- A property of the table, and the keys whose entries may be removed and written under it.
pub record Stability (R : Type 0) : Type 1 where
  pub Allowed : RecordKey → Type 0
  pub Holds : List (RecordKey × Entry R) → Type 0
  pub delete_holds :
      (k : RecordKey) (table : List (RecordKey × Entry R))
      → Allowed k
      → Holds table
      → Holds (delete k table)
  pub update_holds :
      (k : RecordKey) (entry : Entry R) (table : List (RecordKey × Entry R))
      → Allowed k
      → Holds table
      → Holds (update k entry table)
  pub settled_allowed :
      (k : RecordKey) (entry : Entry R) (table : List (RecordKey × Entry R))
      → Holds table
      → oldest is_settled (λ e. e.last_access) table ≡ some (k, entry)
      → Allowed k
  pub evictable_allowed :
      (exclude k : RecordKey) (entry : Entry R) (table : List (RecordKey × Entry R))
      → Holds table
      → oldest (is_evictable exclude) (λ e. e.last_access) table ≡ some (k, entry)
      → Allowed k

module _ {R : Type 0} (law : Stability R) where
  pub remove-Holds :
      (key : RecordKey) (s : IdempotencyState R)
      → law.Allowed key
      → law.Holds s.entries
      → law.Holds (remove key s).entries
  unfolding remove take_out
  remove-Holds key s allowed h = elim (Option-cases (find key s.entries)) [
    | inl e ↦ rw (e, remove) h
    | inr (entry, e) ↦ rw (e, remove) (law.delete_holds key s.entries allowed h)
  ]

  pub expire-Holds :
      (key : RecordKey) (s : IdempotencyState R)
      → law.Allowed key
      → law.Holds s.entries
      → law.Holds (expire key s).entries
  unfolding expire take_out
  expire-Holds key s allowed h = elim (Option-cases (find key s.entries)) [
    | inl e ↦ rw (e, expire) h
    | inr (entry, e) ↦
        let gone = law.delete_holds key s.entries allowed h in
        elim (Bool-cases (is_some entry.expires_at)) [
          | inl timed ↦ rw (e, timed, expire) gone
          | inr open_ended ↦ rw (e, open_ended, expire) gone
        ]
  ]

  pub expire_all-Holds :
      (keys : List RecordKey) (s : IdempotencyState R)
      → All law.Allowed keys
      → law.Holds s.entries
      → law.Holds (expire_all keys s).entries
  unfolding expire_all
  expire_all-Holds [] s allowed h = h
  expire_all-Holds (key ∷ keys) s allowed h =
      expire_all-Holds keys (expire key s) allowed.1 (expire-Holds key s allowed.0 h)

  pub make_capacity-Holds :
      (maximum : ℕ) (s : IdempotencyState R)
      → law.Holds s.entries
      → law.Holds (make_capacity maximum s).0.entries
  unfolding make_capacity
  make_capacity-Holds maximum s h = elim (Bool-cases (ltb (length s.entries) maximum)) [
    | inl room ↦ rw room h
    | inr full ↦ elim (Option-cases (oldest is_settled (λ e. e.last_access) s.entries)) [
      | inl e ↦ rw (full, e) h
      | inr ((key, entry), e) ↦
          rw (full, e) (remove-Holds key s (law.settled_allowed key entry s.entries h e) h)
    ]
  ]

  pub reserve_completed_bytes-Holds :
      (fuel incoming maximum : ℕ) (exclude : RecordKey) (s : IdempotencyState R)
      → law.Holds s.entries
      → law.Holds (reserve_completed_bytes fuel incoming maximum exclude s).0.entries
  unfolding reserve_completed_bytes
  reserve_completed_bytes-Holds zero incoming maximum exclude s h = h
  reserve_completed_bytes-Holds (suc fuel) incoming maximum exclude s h =
      elim (Bool-cases (ltb maximum (saturating_add_u64 s.completed_bytes incoming))) [
        | inr room ↦ rw (room, reserve_completed_bytes) h
        | inl full ↦
            elim (Option-cases (oldest (is_evictable exclude) (λ e. e.last_access) s.entries)) [
              | inl e ↦ rw (full, e, reserve_completed_bytes) h
              | inr ((key, entry), e) ↦
                  rw (full, e, reserve_completed_bytes)
                    (reserve_completed_bytes-Holds fuel incoming maximum exclude (remove key s) (
                      remove-Holds key s (law.evictable_allowed exclude key entry s.entries h e) h))
            ]
      ]
