-- ===== src/Runtime/Idempotency/Bounds.antt =====
-- What the store of crates/runtime/src/idempotency.rs holds at most.
pub mod Calls
use imagegen_bridge.Prelude.{
  ℕ, zero, suc, ◌+◌, ◌≤◌, ◌<◌, String, ◌≡◌, refl, Bool, true, false, Option, none, some, List, [],
  ◌∷◌, arith, length, Bool-cases, Option-cases, is_some, u64_max, inl, inr, ltb, saturating_add_u64,
  saturating_sub,
}
use imagegen_bridge.Core.Error.{BridgeError, Result, ok, err}
use imagegen_bridge.Core.Request.{ImageRequest}
use imagegen_bridge.Runtime.Idempotency.Table.{RecordKey, find, update, delete, oldest}
use imagegen_bridge.Runtime.Idempotency.Table.Laws.{
  total, total-delete, length-delete, total-update, length-update, oldest-is_some,
}
use imagegen_bridge.Runtime.Idempotency.Entries.{
  IdempotencyConfig, IdempotencyToken, EntryOutcome, Entry, IdempotencyState, IdempotencyAction,
  take_out, remove, dismiss, expire, expire_all, cleanup, stale_keys, empty_state,
}
use imagegen_bridge.Runtime.Idempotency.Capacity.{
  make_capacity, reserve_completed_bytes, is_settled, is_evictable,
}
use imagegen_bridge.Runtime.Idempotency.Completion.{
  unreplayable_error, give_up, keep, is_current, complete_at,
}
use imagegen_bridge.Runtime.Idempotency.Coordinator.{
  Codec, join, lead, begin_locked, begin, complete, fail_current, fail, Event, handle, history,
}

-- The bytes of the entries are within their count, the count is within the limit, and so are the
-- entries.
pub record IsBounded {R : Type 0} (c : IdempotencyConfig) (s : IdempotencyState R) : Type 0 where
  pub counted : total (λ e. e.retained_bytes) s.entries ≤ s.completed_bytes
  pub within : s.completed_bytes ≤ c.max_completed_bytes
  pub few : length s.entries ≤ c.max_entries

module _ {R : Type 0} (c : IdempotencyConfig) where
  pub take_out-IsBounded :
      (key : RecordKey) (entry : Entry R) (s : IdempotencyState R)
      → find key s.entries ≡ some entry
      → IsBounded c s
      → IsBounded c (take_out key entry s)
  unfolding take_out
  take_out-IsBounded key entry s h b = record {
    counted = ground (arith, b.counted, total-delete (λ e. e.retained_bytes) key entry s.entries h);
    within = ground (arith, b.within);
    few = ground (arith, b.few, length-delete key entry s.entries h);
  }

  pub remove-IsBounded :
      (key : RecordKey) (s : IdempotencyState R) → IsBounded c s → IsBounded c (remove key s)
  unfolding remove
  remove-IsBounded key s b = elim (Option-cases (find key s.entries)) [
    | inl e ↦ rw (e, remove) b
    | inr (entry, e) ↦ rw (e, remove) (take_out-IsBounded key entry s e b)
  ]

  -- An entry is written, and the count with it.
  pub update-IsBounded :
      (key : RecordKey) (entry entry' : Entry R) (bytes clock : ℕ) (s : IdempotencyState R)
      → find key s.entries ≡ some entry
      → IsBounded c s
      → s.completed_bytes + entry'.retained_bytes ≤ bytes + entry.retained_bytes
      → bytes ≤ c.max_completed_bytes
      → IsBounded c (record s {
        entries = update key entry' s.entries;
        completed_bytes = bytes;
        access_clock = clock;
      })
  update-IsBounded key entry entry' bytes clock s h b more limit = record {
    counted =
        ground
          (arith, b.counted, total-update (λ e. e.retained_bytes) key entry entry' s.entries h);
    within = limit;
    few = ground (arith, b.few, length-update key entry' s.entries);
  }

  expire-IsBounded :
      (key : RecordKey) (s : IdempotencyState R) → IsBounded c s → IsBounded c (expire key s)
  unfolding expire
  expire-IsBounded key s b = elim (Option-cases (find key s.entries)) [
    | inl e ↦ rw (e, expire) b
    | inr (entry, e) ↦
        let t = take_out-IsBounded key entry s e b in
        elim (Bool-cases (is_some entry.expires_at)) [
          | inl timed ↦ rw (e, timed, expire) t
          | inr open_ended ↦
              rw (e, open_ended, expire)
                record { counted = t.counted; within = t.within; few = t.few }
        ]
  ]

  expire_all-IsBounded :
      (keys : List RecordKey) (s : IdempotencyState R)
      → IsBounded c s
      → IsBounded c (expire_all keys s)
  unfolding expire_all
  expire_all-IsBounded [] s b = b
  expire_all-IsBounded (key ∷ keys) s b =
      expire_all-IsBounded keys (expire key s) (expire-IsBounded key s b)

  pub cleanup-IsBounded :
      (now in_flight_ttl : ℕ) (s : IdempotencyState R)
      → IsBounded c s
      → IsBounded c (cleanup now in_flight_ttl s)
  unfolding cleanup
  cleanup-IsBounded now in_flight_ttl s =
      expire_all-IsBounded (stale_keys now in_flight_ttl s.entries) s

  -- An entry that is removed was there.
  remove-length :
      (key : RecordKey) (s : IdempotencyState R)
      → is_some (find key s.entries) ≡ true
      → length (remove key s).entries + 1 ≡ length s.entries
  unfolding remove take_out
  remove-length key s h = elim (Option-cases (find key s.entries)) [
    | inl e ↦ absurd cc
    | inr (entry, e) ↦ rw (e, remove) (length-delete key entry s.entries e)
  ]

  pub make_capacity-IsBounded :
      (maximum : ℕ) (s : IdempotencyState R)
      → IsBounded c s
      → IsBounded c (make_capacity maximum s).0
  unfolding make_capacity
  make_capacity-IsBounded maximum s b = elim (Bool-cases (ltb (length s.entries) maximum)) [
    | inl room ↦ rw room b
    | inr full ↦ elim (Option-cases (oldest is_settled (λ e. e.last_access) s.entries)) [
      | inl e ↦ rw (full, e) b
      | inr ((key, entry), e) ↦ rw (full, e) (remove-IsBounded key s b)
    ]
  ]

  -- Where there is room, the entries are below their limit.
  pub make_capacity-length :
      (maximum : ℕ) (s : IdempotencyState R)
      → 0 < maximum
      → length s.entries ≤ maximum
      → (make_capacity maximum s).1 ≡ ok tt
      → length (make_capacity maximum s).0.entries < maximum
  unfolding make_capacity
  make_capacity-length maximum s positive few h =
      elim (Bool-cases (ltb (length s.entries) maximum)) [
        | inl room ↦ rw room (ground (arith, room))
        | inr full ↦ elim (Option-cases (oldest is_settled (λ e. e.last_access) s.entries)) [
          | inl e ↦ absurd ground (arith, h, e, full)
          | inr ((key, entry), e) ↦
              rw (full, e)
                (ground (
                  arith,
                  few,
                  remove-length key s
                      (oldest-is_some is_settled (λ e. e.last_access) key entry s.entries e),
                ))
        ]
      ]

  pub reserve_completed_bytes-IsBounded :
      (fuel incoming maximum : ℕ) (exclude : RecordKey) (s : IdempotencyState R)
      → IsBounded c s
      → IsBounded c (reserve_completed_bytes fuel incoming maximum exclude s).0
  unfolding reserve_completed_bytes
  reserve_completed_bytes-IsBounded zero incoming maximum exclude s b = b
  reserve_completed_bytes-IsBounded (suc fuel) incoming maximum exclude s b =
      elim (Bool-cases (ltb maximum (saturating_add_u64 s.completed_bytes incoming))) [
        | inr room ↦ rw (room, reserve_completed_bytes) b
        | inl full ↦
            elim (Option-cases (oldest (is_evictable exclude) (λ e. e.last_access) s.entries)) [
              | inl e ↦ rw (full, e, reserve_completed_bytes) b
              | inr ((key, entry), e) ↦
                  rw (full, e, reserve_completed_bytes)
                    (reserve_completed_bytes-IsBounded fuel incoming maximum exclude (remove key s)
                      (remove-IsBounded key s b))
            ]
      ]

  -- Room is found only where the bytes fit.
  pub reserve_completed_bytes-room :
      (fuel incoming maximum : ℕ) (exclude : RecordKey) (s : IdempotencyState R)
      → (reserve_completed_bytes fuel incoming maximum exclude s).1 ≡ true
      → saturating_add_u64
          (reserve_completed_bytes fuel incoming maximum exclude s).0.completed_bytes
          incoming
        ≤ maximum
  unfolding reserve_completed_bytes
  reserve_completed_bytes-room zero incoming maximum exclude s h = absurd cc
  reserve_completed_bytes-room (suc fuel) incoming maximum exclude s h =
      elim (Bool-cases (ltb maximum (saturating_add_u64 s.completed_bytes incoming))) [
        | inr room ↦ rw (room, reserve_completed_bytes) (ground (arith, room))
        | inl full ↦
            elim (Option-cases (oldest (is_evictable exclude) (λ e. e.last_access) s.entries)) [
              | inl e ↦ absurd ground (arith, h, e, full)
              | inr ((key, entry), e) ↦ ground (
                arith,
                full,
                e,
                reserve_completed_bytes-room fuel incoming maximum exclude (remove key s),
              )
            ]
      ]

  -- The rounds are enough: more of them change nothing.
  reserve_completed_bytes-enough :
      (fuel fuel' incoming maximum : ℕ) (exclude : RecordKey) (s : IdempotencyState R)
      → length s.entries < fuel
      → length s.entries < fuel'
      → reserve_completed_bytes fuel incoming maximum exclude s
        ≡ reserve_completed_bytes fuel' incoming maximum exclude s
  unfolding reserve_completed_bytes
  reserve_completed_bytes-enough zero fuel' incoming maximum exclude s h h' = absurd (omega arith)
  reserve_completed_bytes-enough (suc fuel) zero incoming maximum exclude s h h' =
      absurd (omega arith)
  reserve_completed_bytes-enough (suc fuel) (suc fuel') incoming maximum exclude s h h' =
      elim (Bool-cases (ltb maximum (saturating_add_u64 s.completed_bytes incoming))) [
        | inr room ↦ rw (room, reserve_completed_bytes) refl
        | inl full ↦
            elim (Option-cases (oldest (is_evictable exclude) (λ e. e.last_access) s.entries)) [
              | inl e ↦ rw (full, e, reserve_completed_bytes) refl
              | inr ((key, entry), e) ↦
                  let shorter = remove-length key s (
                    oldest-is_some (is_evictable exclude) (λ e. e.last_access) key entry s.entries
                      e) in
                  rw (full, e, reserve_completed_bytes)
                    (reserve_completed_bytes-enough fuel fuel' incoming maximum exclude
                      (remove key s) (ground (arith, h, shorter)) (ground (arith, h', shorter)))
            ]
      ]
