-- ===== src/Runtime/Idempotency/Bounds/Calls.antt =====
-- The limits of the store of crates/runtime/src/idempotency.rs hold through every call of its methods.
use imagegen_bridge.Prelude.{
  ℕ, suc, ◌+◌, ◌≤◌, ◌<◌, String, ◌≡◌, refl, true, false, some, List, [], ◌∷◌, arith, length,
  Bool-cases, Option-cases, u64_max, inl, inr, ltb, text_eq, saturating_add_u64,
}
use imagegen_bridge.Core.Error.{
  BridgeError, Result, Result-cases, Json, with_detail, with_retryable, ok, err, ◌>>◌,
}
use imagegen_bridge.Core.Request.{ImageRequest}
use imagegen_bridge.Runtime.Idempotency.Table.{RecordKey, find}
use imagegen_bridge.Runtime.Idempotency.Table.Laws.{total}
use imagegen_bridge.Runtime.Idempotency.Entries.{
  IdempotencyConfig, IdempotencyToken, EntryOutcome, Entry, IdempotencyState, cleanup, empty_state,
  new_coordinator,
}
use imagegen_bridge.Runtime.Idempotency.Capacity.{make_capacity, reserve_completed_bytes}
use imagegen_bridge.Runtime.Idempotency.Completion.{
  unreplayable_error, give_up, keep, is_current, complete_at,
}
use imagegen_bridge.Runtime.Idempotency.Coordinator.{
  Codec, join, lead, begin_locked, begin, validate_scope, request_fingerprint, complete,
  response_weight, is_unknown, fail_current, fail, Event, handle, history,
}
use imagegen_bridge.Runtime.Idempotency.Bounds.{
  IsBounded, take_out-IsBounded, update-IsBounded, cleanup-IsBounded, make_capacity-IsBounded,
  make_capacity-length, reserve_completed_bytes-IsBounded, reserve_completed_bytes-room,
}

module _ {R : Type 0} (c : IdempotencyConfig) where
  give_up-IsBounded :
      (now : ℕ) (key : RecordKey) (s : IdempotencyState R)
      → IsBounded c s
      → IsBounded c (give_up c now key s)
  unfolding give_up
  give_up-IsBounded now key s b = elim (Option-cases (find key s.entries)) [
    | inl e ↦ rw (e, give_up) b
    | inr (entry, e) ↦
        rw (e, give_up)
          (update-IsBounded c key entry
            (record entry {
              expires_at = some (now + c.completed_ttl);
              uncertain = true;
              retained_bytes = 0;
              outcome = EntryOutcome.unknown unreplayable_error;
            })
            s.completed_bytes s.access_clock s e b (ground arith) b.within)
  ]

  keep-IsBounded :
      (now : ℕ) (key : RecordKey) (response : R) (bytes : ℕ) (s : IdempotencyState R)
      → c.max_completed_bytes < u64_max
      → saturating_add_u64 s.completed_bytes bytes ≤ c.max_completed_bytes
      → IsBounded c s
      → IsBounded c (keep c now key response bytes s)
  unfolding keep
  keep-IsBounded now key response bytes s below room b = elim (Option-cases (find key s.entries)) [
    | inl e ↦ rw (e, keep) record { counted = b.counted; within = b.within; few = b.few }
    | inr (entry, e) ↦
        rw (e, keep)
          (update-IsBounded c key entry
            (record entry {
              expires_at = some (now + c.completed_ttl);
              uncertain = false;
              retained_bytes = bytes;
              last_access = saturating_add_u64 s.access_clock 1;
              outcome = EntryOutcome.completed response;
            })
            (saturating_add_u64 s.completed_bytes bytes) (saturating_add_u64 s.access_clock 1) s e b
            (ground (arith, below, room)) room)
  ]

  complete_at-IsBounded :
      (now : ℕ) (token : IdempotencyToken) (response : R) (bytes : ℕ) (s : IdempotencyState R)
      → c.max_completed_bytes < u64_max
      → IsBounded c s
      → IsBounded c (complete_at c now token response bytes s)
  unfolding complete_at
  complete_at-IsBounded now token response bytes s below b =
      let key = token.record_key in
      let limit = c.max_completed_bytes in
      let fuel = suc (length s.entries) in
      let s' = (reserve_completed_bytes fuel bytes limit key s).0 in
      let b' : IsBounded c s' = reserve_completed_bytes-IsBounded c fuel bytes limit key s b in
      elim (Bool-cases (is_current token s)) [
        | inr other ↦ rw (other, complete_at) b
        | inl current ↦ elim (Bool-cases (ltb limit bytes)) [
          | inl large ↦ rw (current, large, complete_at) (give_up-IsBounded now key s b)
          | inr small ↦ elim (Bool-cases (reserve_completed_bytes fuel bytes limit key s).1) [
            | inr full ↦ rw (current, small, full, complete_at) (give_up-IsBounded now key s' b')
            | inl room ↦
                rw (current, small, room, complete_at)
                  (keep-IsBounded now key response bytes s' below
                    (reserve_completed_bytes-room c fuel bytes limit key s room) b')
          ]
        ]
      ]

  module _ (codec : Codec R) where
    fail_current-IsBounded :
        (token : IdempotencyToken) (e : BridgeError) (now : ℕ) (entry : Entry R)
        (s : IdempotencyState R)
        → find token.record_key s.entries ≡ some entry
        → IsBounded c s
        → IsBounded c (fail_current codec c token e now entry s)
    unfolding fail_current
    fail_current-IsBounded token e now entry s found b =
        let gone = take_out-IsBounded c token.record_key entry s found b in
        elim (Bool-cases (is_unknown e)) [
          | inl uncertain ↦
              rw (uncertain, fail_current)
                (update-IsBounded c token.record_key entry
                  (record entry {
                    expires_at = some (now + c.unknown_ttl);
                    uncertain = true;
                    outcome =
                        EntryOutcome.unknown
                          (with_detail "outcome" (Json.text "unknown") (with_retryable false e));
                  })
                  s.completed_bytes s.access_clock s found b (ground arith) b.within)
          | inr certain ↦
              rw (certain, fail_current)
                record { counted = gone.counted; within = gone.within; few = gone.few }
        ]

    fail-IsBounded :
        (token : IdempotencyToken) (e : BridgeError) (now : ℕ) (s : IdempotencyState R)
        → IsBounded c s
        → IsBounded c (fail codec c token e now s)
    unfolding fail
    fail-IsBounded token e now s b =
        let key = token.record_key in
        elim (Option-cases (find key s.entries)) [
          | inl absent ↦ rw (absent, fail) b
          | inr (entry, found) ↦ elim (Bool-cases (text_eq entry.fingerprint token.fingerprint)) [
            | inr other ↦ rw (found, other, fail) b
            | inl same ↦ rw (found, same, fail) (fail_current-IsBounded token e now entry s found b)
          ]
        ]

    lead-IsBounded :
        (key : RecordKey) (fingerprint : String) (now access : ℕ)
        (made : IdempotencyState R × Result (Unit {0}))
        → IsBounded c made.0
        → (made.1 ≡ ok tt → length made.0.entries < c.max_entries)
        → IsBounded c (lead codec c key fingerprint now access made).0
    unfolding lead total
    lead-IsBounded key fingerprint now access (s, err e) b room = b
    lead-IsBounded key fingerprint now access (s, ok _) b room = record {
      counted = ground (arith, b.counted);
      within = b.within;
      few = ground (arith, room refl);
    }

    join-IsBounded :
        (key : RecordKey) (fingerprint : String) (access : ℕ) (entry : Entry R)
        (s : IdempotencyState R)
        → find key s.entries ≡ some entry
        → IsBounded c s
        → IsBounded c (join codec c key fingerprint access entry s).0
    unfolding join
    join-IsBounded key fingerprint access entry s found b =
        elim (Bool-cases (text_eq entry.fingerprint fingerprint)) [
          | inl same ↦
              rw (same, join)
                (update-IsBounded c key entry (record entry { last_access = access })
                  s.completed_bytes s.access_clock s found b (ground arith) b.within)
          | inr other ↦ rw (other, join) b
        ]

    begin_locked-IsBounded :
        (key : RecordKey) (fingerprint : String) (now : ℕ) (s : IdempotencyState R)
        → 0 < c.max_entries
        → IsBounded c s
        → IsBounded c (begin_locked codec c key fingerprint now s).0
    unfolding begin_locked
    begin_locked-IsBounded key fingerprint now s positive b =
        let cleaned = cleanup now c.in_flight_ttl s in
        let access = saturating_add_u64 cleaned.access_clock 1 in
        let s' : IdempotencyState R = record cleaned { access_clock = access } in
        let b' : IsBounded c s' =
          let a = cleanup-IsBounded c now c.in_flight_ttl s b in
          record { counted = a.counted; within = a.within; few = a.few } in
        elim (Option-cases (find key cleaned.entries)) [
          | inr (entry, found) ↦
              rw (found, begin_locked) (join-IsBounded key fingerprint access entry s' found b')
          | inl absent ↦
              rw (absent, begin_locked)
                (lead-IsBounded key fingerprint now access (make_capacity c.max_entries s')
                  (make_capacity-IsBounded c c.max_entries s' b')
                  (make_capacity-length c c.max_entries s' positive b'.few))
        ]

    begin-IsBounded :
        (scope key : String) (request : ImageRequest) (now : ℕ) (s : IdempotencyState R)
        → 0 < c.max_entries
        → IsBounded c s
        → IsBounded c (begin codec c scope key request now s).0
    unfolding begin
    begin-IsBounded scope key request now s positive b =
        elim (Result-cases (validate_scope scope >> request_fingerprint codec request)) [
          | inr (e, failed) ↦ rw (failed, begin) b
          | inl (fingerprint, made) ↦
              rw (made, begin)
                (begin_locked-IsBounded (record { scope = scope; key = key }) fingerprint now s
                  positive b)
        ]

    handle-IsBounded :
        (event : Event R) (s : IdempotencyState R)
        → new_coordinator c ≡ ok c
        → c.max_completed_bytes < u64_max
        → IsBounded c s
        → IsBounded c (handle codec c s event)
    unfolding handle complete new_coordinator
    handle-IsBounded (Event.begins scope key request now) s valid below b =
        begin-IsBounded scope key request now s (ground (arith, valid)) b
    handle-IsBounded (Event.completes token response now) s valid below b =
        complete_at-IsBounded now token response (response_weight codec response) s below b
    handle-IsBounded (Event.fails token e now) s valid below b = fail-IsBounded token e now s b

    history-IsBounded :
        (events : List (Event R)) (s : IdempotencyState R)
        → new_coordinator c ≡ ok c
        → c.max_completed_bytes < u64_max
        → IsBounded c s
        → IsBounded c (history codec c s events)
    unfolding history
    history-IsBounded [] s valid below b = b
    history-IsBounded (event ∷ events) s valid below b =
        history-IsBounded events (handle codec c s event) valid below
          (handle-IsBounded event s valid below b)

    -- In every history of a new coordinator with a configuration that is accepted, whose
    -- `max_completed_bytes` is below the largest 64-bit number, the retained bytes of the entries
    -- add up to at most the bytes counted, these are at most `max_completed_bytes`, and the entries
    -- are at most `max_entries`.
    pub history-bounds :
        (events : List (Event R))
        → new_coordinator c ≡ ok c
        → c.max_completed_bytes < u64_max
        → let s = history codec c (empty_state R) events in
          (total (λ e. e.retained_bytes) s.entries ≤ s.completed_bytes)
          × (s.completed_bytes ≤ c.max_completed_bytes)
          × (length s.entries ≤ c.max_entries)
    unfolding total
    history-bounds events valid below =
        let b =
          history-IsBounded events (empty_state R) valid below
            (record { counted = ground arith; within = ground arith; few = ground arith }) in
        (b.counted, b.within, b.few)
