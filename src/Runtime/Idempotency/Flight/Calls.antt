-- ===== src/Runtime/Idempotency/Flight/Calls.antt =====
-- Calls of crates/runtime/src/idempotency.rs while a leader has not reported.
use imagegen_bridge.Prelude.{
  ℕ, ◌-◌, ◌<◌, String, ◌≡◌, false, none, some, List, [], ◌∷◌, arith, Bool-cases, Option-cases, All,
  inl, inr, text_eq, saturating_add_u64,
}
use imagegen_bridge.Core.Error.{Result, Result-cases, Result-cases, ok, err, ◌>>◌}
use imagegen_bridge.Runtime.Idempotency.Table.{RecordKey, key_eq, find}
use imagegen_bridge.Runtime.Idempotency.Entries.{
  IdempotencyConfig, Entry, IdempotencyState, cleanup,
}
use imagegen_bridge.Runtime.Idempotency.Capacity.{make_capacity}
use imagegen_bridge.Runtime.Idempotency.Coordinator.{
  Codec, join, lead, begin_locked, begin, validate_scope, request_fingerprint, complete,
  response_weight, Event, handle, history,
}
use imagegen_bridge.Runtime.Idempotency.Stable.{make_capacity-Holds}
use imagegen_bridge.Runtime.Idempotency.Stable.Calls.{complete_at-Holds, fail-Holds}
use imagegen_bridge.Runtime.Idempotency.Table.Laws.{key_eq_iff, find-update_self, update-Distinct}
use imagegen_bridge.Runtime.Idempotency.Uniqueness.{make_capacity-absent}
use imagegen_bridge.Runtime.Idempotency.Flight.{IsInFlight, flight_law, cleanup-IsInFlight}

-- A call that leaves the leader of `key` alone, which began at `started`: a `begin` before the limit on
-- leaders is over, or a report for another key.
abbrev pub IsQuiet : {R : Type 0} → IdempotencyConfig → RecordKey → ℕ → Event R → Type 0
IsQuiet c key started (Event.begins scope k request now) = now - started < c.in_flight_ttl
IsQuiet c key started (Event.completes token response now) = key_eq key token.record_key ≡ false
IsQuiet c key started (Event.fails token e now) = key_eq key token.record_key ≡ false

module _ {R : Type 0} (codec : Codec R) (c : IdempotencyConfig) (key : RecordKey) (started : ℕ)
    (owner : String) where
  lead-IsInFlight :
      (j : RecordKey) (fingerprint : String) (now access : ℕ)
      (made : IdempotencyState R × Result (Unit {0}))
      → find j made.0.entries ≡ none
      → IsInFlight key started owner made.0.entries
      → IsInFlight key started owner (lead codec c j fingerprint now access made).0.entries
  unfolding lead find
  lead-IsInFlight j fingerprint now access (s, err e) absent f = f
  lead-IsInFlight j fingerprint now access (s, ok _) absent f = record {
    alone = (absent, f.alone);
    entry = f.entry;
    found = ground (arith, f.found, absent, key_eq_iff key j);
    pending = f.pending;
  }

  join-IsInFlight :
      (j : RecordKey) (fingerprint : String) (access : ℕ) (entry : Entry R) (s : IdempotencyState R)
      → find j s.entries ≡ some entry
      → IsInFlight key started owner s.entries
      → IsInFlight key started owner (join codec c j fingerprint access entry s).0.entries
  unfolding join
  join-IsInFlight j fingerprint access entry s there f =
      elim (Bool-cases (text_eq entry.fingerprint fingerprint)) [
        | inr other ↦ rw (other, join) f
        | inl matched ↦
            rw (matched, join)
              (elim (Bool-cases (key_eq key j)) [
                | inr other ↦ (flight_law key started owner).update_holds j _ s.entries other f
                | inl same ↦
                    let e : key ≡ j = (key_eq_iff key j).0 same in
                    let e' : f.entry ≡ entry = ground (arith, f.found, there, e) in
                    record {
                      alone = update-Distinct j _ s.entries f.alone;
                      entry = record f.entry { last_access = access };
                      found = ground (
                        arith,
                        find-update_self j entry (record entry { last_access = access }) s.entries
                            there,
                        e,
                        e',
                      );
                      pending = record {
                        open_ended = f.pending.open_ended;
                        created = f.pending.created;
                        weightless = f.pending.weightless;
                        owned = f.pending.owned;
                        awaited = f.pending.awaited;
                      };
                    }
              ])
      ]

  begin_locked-IsInFlight :
      (j : RecordKey) (fingerprint : String) (now : ℕ) (s : IdempotencyState R)
      → now - started < c.in_flight_ttl
      → IsInFlight key started owner s.entries
      → IsInFlight key started owner (begin_locked codec c j fingerprint now s).0.entries
  unfolding begin_locked
  begin_locked-IsInFlight j fingerprint now s early f =
      let cleaned = cleanup now c.in_flight_ttl s in
      let access = saturating_add_u64 cleaned.access_clock 1 in
      let s' : IdempotencyState R = record cleaned { access_clock = access } in
      let f' : IsInFlight key started owner s'.entries =
        cleanup-IsInFlight key started owner now c.in_flight_ttl s early f in
      elim (Option-cases (find j cleaned.entries)) [
        | inr (entry, found) ↦
            rw (found, begin_locked) (join-IsInFlight j fingerprint access entry s' found f')
        | inl absent ↦
            rw (absent, begin_locked)
              (lead-IsInFlight j fingerprint now access (make_capacity c.max_entries s')
                (make_capacity-absent j c.max_entries s' absent)
                (make_capacity-Holds (flight_law key started owner) c.max_entries s' f'))
      ]

  handle-IsInFlight :
      (event : Event R) (s : IdempotencyState R)
      → IsQuiet c key started event
      → IsInFlight key started owner s.entries
      → IsInFlight key started owner (handle codec c s event).entries
  unfolding handle complete begin
  handle-IsInFlight (Event.begins scope k request now) s quiet f =
      elim (Result-cases (validate_scope scope >> request_fingerprint codec request)) [
        | inr (e, failed) ↦ rw (failed, handle, begin) f
        | inl (fingerprint, made) ↦
            rw (made, handle, begin)
              (begin_locked-IsInFlight (record { scope = scope; key = k }) fingerprint now s quiet
                f)
      ]
  handle-IsInFlight (Event.completes token response now) s quiet f =
      complete_at-Holds (flight_law key started owner) c now token response
        (response_weight codec response) s quiet f
  handle-IsInFlight (Event.fails token e now) s quiet f =
      fail-Holds (flight_law key started owner) c codec token e now s quiet f

  pub history-IsInFlight :
      (events : List (Event R)) (s : IdempotencyState R)
      → All (IsQuiet c key started) events
      → IsInFlight key started owner s.entries
      → IsInFlight key started owner (history codec c s events).entries
  unfolding history
  history-IsInFlight [] s quiet f = f
  history-IsInFlight (event ∷ events) s quiet f =
      history-IsInFlight events (handle codec c s event) quiet.1
        (handle-IsInFlight event s quiet.0 f)
