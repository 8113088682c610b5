-- ===== src/Runtime/Idempotency/Answers.antt =====
-- What the callers of crates/runtime/src/idempotency.rs are answered.
pub mod Waiting
pub mod Replay
pub mod Tombstone
use imagegen_bridge.Prelude.{
  ℕ, zero, suc, ◌+◌, ◌-◌, ◌≤◌, ◌<◌, String, ◌≡◌, refl, sym, ap, subst, ◌∙◌, Bool, true, false,
  Option, none, some, List, [], ◌∷◌, arith, length, Bool-cases, Option-cases, All, is_some, u64_max,
  inl, inr, ltb, text_eq, saturating_add_u64, saturating_sub,
}
use imagegen_bridge.Core.Error.{
  BridgeError, Result, ◌>>=◌, Result-cases, Result-cases, Json, with_detail, with_retryable, ok,
  err, ◌>>◌,
}
use imagegen_bridge.Core.Request.{ImageRequest}
use imagegen_bridge.Runtime.Idempotency.Table.{RecordKey, key_eq, find, update, delete, oldest}
use imagegen_bridge.Runtime.Idempotency.Table.Laws.{
  total, total-delete, length-delete, total-update, length-update, oldest-is_some,
}
use imagegen_bridge.Runtime.Idempotency.Entries.{
  IdempotencyConfig, IdempotencyToken, EntryOutcome, Entry, IdempotencyState, IdempotencyAction,
  new_entry, take_out, remove, dismiss, expire, expire_all, cleanup, is_expired, stale_keys,
  empty_state, new_coordinator,
}
use imagegen_bridge.Runtime.Idempotency.Capacity.{
  make_capacity, reserve_completed_bytes, is_settled, is_evictable,
}
use imagegen_bridge.Runtime.Idempotency.Completion.{
  unreplayable_error, give_up, keep, is_current, complete_at,
}
use imagegen_bridge.Runtime.Idempotency.Coordinator.{
  Codec, answer, join, lead, begin_locked, begin, validate_scope, request_fingerprint, complete,
  response_weight, is_unknown, fail_current, fail, Event, handle, history,
}
use imagegen_bridge.Runtime.Idempotency.Table.Laws.{Distinct, key_eq_refl}
use imagegen_bridge.Runtime.Idempotency.Uniqueness.{
  cleanup-Distinct, make_capacity-absent, make_capacity-Distinct, lead-Distinct, begin-Distinct,
  history-Distinct,
}
use imagegen_bridge.Runtime.Idempotency.Flight.{IsPending, IsInFlight, cleanup-IsInFlight}
use imagegen_bridge.Runtime.Idempotency.Flight.Calls.{IsQuiet, history-IsInFlight}

module _ {R : Type 0} (codec : Codec R) (c : IdempotencyConfig) where
  lead-leader :
      (key : RecordKey) (fingerprint : String) (now access : ℕ) (token : IdempotencyToken)
      (made : IdempotencyState R × Result (Unit {0}))
      → find key made.0.entries ≡ none
      → Distinct made.0.entries
      → (lead codec c key fingerprint now access made).1 ≡ ok (IdempotencyAction.leader token)
      → (token ≡ record { record_key = key; fingerprint = fingerprint })
        × IsInFlight key now fingerprint (lead codec c key fingerprint now access made).0.entries
  unfolding lead find
  lead-leader key fingerprint now access token (s, err e) absent d h = absurd cc
  lead-leader key fingerprint now access token (s, ok _) absent d h = (
    cc,
    record {
      alone = (absent, d);
      entry = new_entry fingerprint now access;
      found = ground (arith, key_eq_refl key);
      pending = record {
        open_ended = refl;
        created = refl;
        weightless = refl;
        owned = refl;
        awaited = refl;
      };
    },
  )

  answer-leader :
      (key : RecordKey) (outcome : EntryOutcome R) (token : IdempotencyToken)
      → ¬ answer codec c key outcome ≡ ok (IdempotencyAction.leader token)
  unfolding answer
  answer-leader key EntryOutcome.pending token h = absurd cc
  answer-leader key (EntryOutcome.completed response) token h = absurd cc
  answer-leader key (EntryOutcome.failed e) token h = absurd cc
  answer-leader key (EntryOutcome.unknown e) token h = absurd cc

  join-leader :
      (key : RecordKey) (fingerprint : String) (access : ℕ) (entry : Entry R)
      (s : IdempotencyState R) (token : IdempotencyToken)
      → ¬ (join codec c key fingerprint access entry s).1 ≡ ok (IdempotencyAction.leader token)
  unfolding join
  join-leader key fingerprint access entry s token h =
      elim (Bool-cases (text_eq entry.fingerprint fingerprint)) [
        | inr other ↦ absurd ground (arith, h, other)
        | inl same ↦ answer-leader key entry.outcome token (ground (arith, h, same))
      ]

  -- The state in which `begin` looks its key up.
  abbrev pub looked_up : ℕ → IdempotencyState R → IdempotencyState R
  looked_up now s =
      let cleaned = cleanup now c.in_flight_ttl s in
      record cleaned { access_clock = saturating_add_u64 cleaned.access_clock 1 }

  pub begin_locked-found :
      (key : RecordKey) (fingerprint : String) (now : ℕ) (entry : Entry R) (s : IdempotencyState R)
      → find key (looked_up now s).entries ≡ some entry
      → begin_locked codec c key fingerprint now s
        ≡ join codec c key fingerprint (looked_up now s).access_clock entry (looked_up now s)
  unfolding begin_locked
  begin_locked-found key fingerprint now entry s found = rw (found, begin_locked) refl

  pub begin_locked-absent :
      (key : RecordKey) (fingerprint : String) (now : ℕ) (s : IdempotencyState R)
      → find key (looked_up now s).entries ≡ none
      → begin_locked codec c key fingerprint now s
        ≡ lead codec c key fingerprint now
            (looked_up now s).access_clock
            (make_capacity c.max_entries (looked_up now s))
  unfolding begin_locked
  begin_locked-absent key fingerprint now s absent = rw (absent, begin_locked) refl

  begin_locked-leader :
      (key : RecordKey) (fingerprint : String) (now : ℕ) (token : IdempotencyToken)
      (s : IdempotencyState R)
      → Distinct s.entries
      → (begin_locked codec c key fingerprint now s).1 ≡ ok (IdempotencyAction.leader token)
      → (token ≡ record { record_key = key; fingerprint = fingerprint })
        × IsInFlight key now fingerprint (begin_locked codec c key fingerprint now s).0.entries
  begin_locked-leader key fingerprint now token s d h =
      let s' = looked_up now s in
      elim (Option-cases (find key s'.entries)) [
        | inr (entry, found) ↦
            let e = begin_locked-found key fingerprint now entry s found in
            absurd (
              join-leader key fingerprint s'.access_clock entry s' token
                (subst (λ r. r.1 ≡ ok (IdempotencyAction.leader token)) e h))
        | inl absent ↦
            let e = begin_locked-absent key fingerprint now s absent in
            let led =
              lead-leader key fingerprint now s'.access_clock token (make_capacity c.max_entries s')
                (make_capacity-absent key c.max_entries s' absent)
                (make_capacity-Distinct c.max_entries s' (cleanup-Distinct now c.in_flight_ttl s d))
                (subst (λ r. r.1 ≡ ok (IdempotencyAction.leader token)) e h) in
            (led.0, subst (λ r. IsInFlight key now fingerprint r.0.entries) (sym e) led.1)
      ]

  -- `begin`, where the scope and the request are accepted.
  pub begin-locked :
      (scope key fingerprint : String) (request : ImageRequest) (now : ℕ) (s : IdempotencyState R)
      → (validate_scope scope >> request_fingerprint codec request) ≡ ok fingerprint
      → begin codec c scope key request now s
        ≡ begin_locked codec c (record { scope = scope; key = key }) fingerprint now s
  unfolding begin
  begin-locked scope key fingerprint request now s made = rw (made, begin) refl

  pub begin-refused :
      (scope key : String) (request : ImageRequest) (now : ℕ) (s : IdempotencyState R)
      (e : BridgeError)
      → (validate_scope scope >> request_fingerprint codec request) ≡ err e
      → begin codec c scope key request now s ≡ (s, err e)
  unfolding begin
  begin-refused scope key request now s e failed = rw (failed, begin) refl

  -- A leader has the key and the fingerprint it came with, and its entry is in the table.
  pub begin-leader :
      (scope key : String) (request : ImageRequest) (now : ℕ) (token : IdempotencyToken)
      (s : IdempotencyState R)
      → Distinct s.entries
      → (begin codec c scope key request now s).1 ≡ ok (IdempotencyAction.leader token)
      → (token.record_key ≡ record { scope = scope; key = key })
        × IsInFlight
            (record { scope = scope; key = key })
            now
            token.fingerprint
            (begin codec c scope key request now s).0.entries
  begin-leader scope key request now token s d h =
      elim (Result-cases (validate_scope scope >> request_fingerprint codec request)) [
        | inr (e, failed) ↦ absurd (
            subst (λ r. ¬ r.1 ≡ ok (IdempotencyAction.leader token))
              (sym (begin-refused scope key request now s e failed)) (λ k. cc) h)
        | inl (fingerprint, made) ↦
            let b = begin-locked scope key fingerprint request now s made in
            let k : RecordKey = record { scope = scope; key = key } in
            let led =
              begin_locked-leader k fingerprint now token s d
                (subst (λ r. r.1 ≡ ok (IdempotencyAction.leader token)) b h) in
            (
              ap (λ t. t.record_key) led.0,
              subst (λ r. IsInFlight k now token.fingerprint r.0.entries) (sym b)
                  (subst
                    (λ f. IsInFlight k now f (begin_locked codec c k fingerprint now s).0.entries)
                    (sym (ap (λ t. t.fingerprint) led.0)) led.1),
            )
      ]
