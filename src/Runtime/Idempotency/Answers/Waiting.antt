-- ===== src/Runtime/Idempotency/Answers/Waiting.antt =====
-- `begin` of crates/runtime/src/idempotency.rs while the leader of the key is at work.
use imagegen_bridge.Prelude.{
  ℕ, ◌-◌, ◌<◌, String, ◌≡◌, refl, if◌then◌else◌, List, arith, All, inl, inr, text_eq,
}
use imagegen_bridge.Core.Error.{Result-cases, ◌>>=◌, Result-cases, ok, err, ◌>>◌}
use imagegen_bridge.Core.Request.{ImageRequest}
use imagegen_bridge.Runtime.Idempotency.Table.{RecordKey}
use imagegen_bridge.Runtime.Idempotency.Entries.{
  IdempotencyConfig, IdempotencyToken, Entry, IdempotencyState, IdempotencyAction, empty_state,
}
use imagegen_bridge.Runtime.Idempotency.Coordinator.{
  Codec, conflict_error, answer, join, begin_locked, begin, validate_scope, request_fingerprint,
  Event, history,
}
use imagegen_bridge.Runtime.Idempotency.Uniqueness.{history-Distinct}
use imagegen_bridge.Runtime.Idempotency.Flight.{IsInFlight, cleanup-IsInFlight}
use imagegen_bridge.Runtime.Idempotency.Flight.Calls.{IsQuiet, history-IsInFlight}
use imagegen_bridge.Runtime.Idempotency.Answers.{
  looked_up, begin_locked-found, begin-locked, begin-refused, begin-leader,
}

module _ {R : Type 0} (codec : Codec R) (c : IdempotencyConfig) where
  pub join-answer :
      (key : RecordKey) (fingerprint : String) (access : ℕ) (entry : Entry R)
      (s : IdempotencyState R)
      → (join codec c key fingerprint access entry s).1 ≡ (
          if text_eq entry.fingerprint fingerprint
          then answer codec c key entry.outcome
          else err conflict_error)
  unfolding join
  join-answer key fingerprint access entry s = ground arith

  begin_locked-waits :
      (key : RecordKey) (fingerprint owner : String) (started now : ℕ) (s : IdempotencyState R)
      → now - started < c.in_flight_ttl
      → IsInFlight key started owner s.entries
      → (begin_locked codec c key fingerprint now s).1 ≡ (
          if text_eq owner fingerprint then ok (IdempotencyAction.wait key) else err conflict_error)
  unfolding answer
  begin_locked-waits key fingerprint owner started now s early f =
      let f' : IsInFlight key started owner (looked_up codec c now s).entries =
        cleanup-IsInFlight key started owner now c.in_flight_ttl s early f in
      rw
        (
          begin_locked-found codec c key fingerprint now f'.entry s f'.found,
          join-answer key fingerprint (looked_up codec c now s).access_clock f'.entry
              (looked_up codec c now s),
          f'.pending.owned,
          f'.pending.awaited,
          answer,
        )
        refl

  -- After any history of a new coordinator, once a `begin` of a key has made its caller the leader,
  -- and through any later calls that are a `begin` less than `in_flight_ttl` after it or a report
  -- for another key, a `begin` of that key less than `in_flight_ttl` after it answers: the error of
  -- the scope or of the digest, if there is one; a wait on the leader, if the request has the
  -- leader's fingerprint; a conflict otherwise. No second leader is made.
  pub begin-in_flight :
      (before : List (Event R)) (scope key : String) (request : ImageRequest) (started : ℕ)
      (token : IdempotencyToken)
      → (begin codec c scope key request started (history codec c (empty_state R) before)).1
        ≡ ok (IdempotencyAction.leader token)
      → (events : List (Event R))
      → All (IsQuiet c (record { scope = scope; key = key }) started) events
      → (request' : ImageRequest) (now : ℕ) → now - started < c.in_flight_ttl
      → let s = history codec c (empty_state R) before in
        let later = history codec c (begin codec c scope key request started s).0 events in
        (begin codec c scope key request' now later).1
        ≡ (validate_scope scope >> request_fingerprint codec request') >>= λ fingerprint.
            if text_eq token.fingerprint fingerprint
            then ok (IdempotencyAction.wait (record { scope = scope; key = key }))
            else err conflict_error
  begin-in_flight before scope key request started token h events quiet request' now early =
      let k : RecordKey = record { scope = scope; key = key } in
      let s = history codec c (empty_state R) before in
      let led =
        begin-leader codec c scope key request started token s
          (history-Distinct codec c before (empty_state R) tt) h in
      let later = history codec c (begin codec c scope key request started s).0 events in
      let f =
        history-IsInFlight codec c k started token.fingerprint events
          (begin codec c scope key request started s).0 quiet led.1 in
      elim (Result-cases (validate_scope scope >> request_fingerprint codec request')) [
        | inr (e, failed) ↦
            rw (begin-refused codec c scope key request' now later e failed, failed) refl
        | inl (fingerprint, made) ↦
            rw (begin-locked codec c scope key fingerprint request' now later made, made)
              (begin_locked-waits k fingerprint token.fingerprint started now later early f)
      ]
