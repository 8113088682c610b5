-- ===== src/Runtime/Idempotency/Uniqueness.antt =====
-- The keys of the table of crates/runtime/src/idempotency.rs are distinct in every history.
use imagegen_bridge.Prelude.{
  ℕ, String, ◌≡◌, none, List, [], ◌∷◌, Bool-cases, Option-cases, All, inl, inr, text_eq,
  saturating_add_u64,
}
use imagegen_bridge.Core.Error.{Result, Result-cases, Result-cases, ok, err, ◌>>◌}
use imagegen_bridge.Core.Request.{ImageRequest}
use imagegen_bridge.Runtime.Idempotency.Table.{RecordKey, find}
use imagegen_bridge.Runtime.Idempotency.Entries.{
  IdempotencyConfig, Entry, IdempotencyState, cleanup, stale_keys,
}
use imagegen_bridge.Runtime.Idempotency.Capacity.{make_capacity}
use imagegen_bridge.Runtime.Idempotency.Coordinator.{
  Codec, join, lead, begin_locked, begin, validate_scope, request_fingerprint, complete,
  response_weight, Event, handle, history,
}
use imagegen_bridge.Runtime.Idempotency.Stable.{Stability, expire_all-Holds, make_capacity-Holds}
use imagegen_bridge.Runtime.Idempotency.Stable.Calls.{complete_at-Holds, fail-Holds}
use imagegen_bridge.Runtime.Idempotency.Table.Laws.{
  find-delete_none, find-update_none, Distinct, delete-Distinct, update-Distinct,
}

abbrev AnyKey : RecordKey → Type 0
AnyKey _ = Unit

All-AnyKey : (keys : List RecordKey) → All AnyKey keys
All-AnyKey [] = tt
All-AnyKey (key ∷ keys) = (tt, All-AnyKey keys)

abbrev distinct_law : (R : Type 0) → Stability R
distinct_law R = record {
  Allowed = AnyKey;
  Holds = Distinct;
  delete_holds = λ k table _ d. delete-Distinct k table d;
  update_holds = λ k entry table _ d. update-Distinct k entry table d;
  settled_allowed = λ _ _ _ _ _. tt;
  evictable_allowed = λ _ _ _ _ _ _. tt;
}

-- A table that lacks a key.
abbrev absent_law : (R : Type 0) (key : RecordKey) → Stability R
absent_law R key = record {
  Allowed = AnyKey;
  Holds = λ table. find key table ≡ none;
  delete_holds = λ k table _ absent. find-delete_none key k table absent;
  update_holds = λ k entry table _ absent. find-update_none key k entry table absent;
  settled_allowed = λ _ _ _ _ _. tt;
  evictable_allowed = λ _ _ _ _ _ _. tt;
}

pub make_capacity-absent :
    {R : Type 0} (key : RecordKey) (maximum : ℕ) (s : IdempotencyState R)
    → find key s.entries ≡ none
    → find key (make_capacity maximum s).0.entries ≡ none
make_capacity-absent {R} key maximum s = make_capacity-Holds (absent_law R key) maximum s

pub make_capacity-Distinct :
    {R : Type 0} (maximum : ℕ) (s : IdempotencyState R)
    → Distinct s.entries
    → Distinct (make_capacity maximum s).0.entries
make_capacity-Distinct {R} maximum s = make_capacity-Holds (distinct_law R) maximum s

pub cleanup-Distinct :
    {R : Type 0} (now in_flight_ttl : ℕ) (s : IdempotencyState R)
    → Distinct s.entries
    → Distinct (cleanup now in_flight_ttl s).entries
unfolding cleanup
cleanup-Distinct {R} now in_flight_ttl s d =
    let keys = stale_keys now in_flight_ttl s.entries in
    expire_all-Holds (distinct_law R) keys s (All-AnyKey keys) d

module _ {R : Type 0} (codec : Codec R) (c : IdempotencyConfig) where
  -- The lead of a key that is not there.
  pub lead-Distinct :
      (key : RecordKey) (fingerprint : String) (now access : ℕ)
      (made : IdempotencyState R × Result (Unit {0}))
      → find key made.0.entries ≡ none
      → Distinct made.0.entries
      → Distinct (lead codec c key fingerprint now access made).0.entries
  unfolding lead
  lead-Distinct key fingerprint now access (s, err e) absent d = d
  lead-Distinct key fingerprint now access (s, ok _) absent d = (absent, d)

  join-Distinct :
      (key : RecordKey) (fingerprint : String) (access : ℕ) (entry : Entry R)
      (s : IdempotencyState R)
      → Distinct s.entries
      → Distinct (join codec c key fingerprint access entry s).0.entries
  unfolding join
  join-Distinct key fingerprint access entry s d =
      elim (Bool-cases (text_eq entry.fingerprint fingerprint)) [
        | inl same ↦ rw (same, join) (update-Distinct key _ s.entries d)
        | inr other ↦ rw (other, join) d
      ]

  begin_locked-Distinct :
      (key : RecordKey) (fingerprint : String) (now : ℕ) (s : IdempotencyState R)
      → Distinct s.entries
      → Distinct (begin_locked codec c key fingerprint now s).0.entries
  unfolding begin_locked
  begin_locked-Distinct key fingerprint now s d =
      let cleaned = cleanup now c.in_flight_ttl s in
      let access = saturating_add_u64 cleaned.access_clock 1 in
      let s' : IdempotencyState R = record cleaned { access_clock = access } in
      let d' : Distinct s'.entries = cleanup-Distinct now c.in_flight_ttl s d in
      elim (Option-cases (find key cleaned.entries)) [
        | inr (entry, found) ↦
            rw (found, begin_locked) (join-Distinct key fingerprint access entry s' d')
        | inl absent ↦
            rw (absent, begin_locked)
              (lead-Distinct key fingerprint now access (make_capacity c.max_entries s')
                (make_capacity-absent key c.max_entries s' absent)
                (make_capacity-Distinct c.max_entries s' d'))
      ]

  pub begin-Distinct :
      (scope key : String) (request : ImageRequest) (now : ℕ) (s : IdempotencyState R)
      → Distinct s.entries
      → Distinct (begin codec c scope key request now s).0.entries
  unfolding begin
  begin-Distinct scope key request now s d =
      elim (Result-cases (validate_scope scope >> request_fingerprint codec request)) [
        | inr (e, failed) ↦ rw (failed, begin) d
        | inl (fingerprint, made) ↦
            rw (made, begin)
              (begin_locked-Distinct (record { scope = scope; key = key }) fingerprint now s d)
      ]

  pub handle-Distinct :
      (event : Event R) (s : IdempotencyState R)
      → Distinct s.entries
      → Distinct (handle codec c s event).entries
  unfolding handle complete
  handle-Distinct (Event.begins scope key request now) s d =
      begin-Distinct scope key request now s d
  handle-Distinct (Event.completes token response now) s d =
      complete_at-Holds (distinct_law R) c now token response (response_weight codec response) s tt
        d
  handle-Distinct (Event.fails token e now) s d =
      fail-Holds (distinct_law R) c codec token e now s tt d

  pub history-Distinct :
      (events : List (Event R)) (s : IdempotencyState R)
      → Distinct s.entries
      → Distinct (history codec c s events).entries
  unfolding history
  history-Distinct [] s d = d
  history-Distinct (event ∷ events) s d =
      history-Distinct events (handle codec c s event) (handle-Distinct event s d)
