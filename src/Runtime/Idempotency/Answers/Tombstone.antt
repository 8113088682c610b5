-- ===== src/Runtime/Idempotency/Answers/Tombstone.antt =====
-- `begin` of crates/runtime/src/idempotency.rs once the leader of the key has reported that the outcome
-- of its request is unknown.
use imagegen_bridge.Prelude.{
  ℕ, ◌+◌, ◌<◌, String, ◌≡◌, refl, ap, text_eq_iff, true, false, List, All, text_eq,
}
use imagegen_bridge.Core.Error.{Json, BridgeError, with_detail, with_retryable, ok, err, ◌>>◌}
use imagegen_bridge.Core.Request.{ImageRequest}
use imagegen_bridge.Runtime.Idempotency.Table.{RecordKey}
use imagegen_bridge.Runtime.Idempotency.Entries.{
  IdempotencyConfig, IdempotencyToken, EntryOutcome, IdempotencyState, IdempotencyAction,
  empty_state,
}
use imagegen_bridge.Runtime.Idempotency.Coordinator.{
  Codec, answer, begin, validate_scope, request_fingerprint, fail, fail_current, is_unknown, Event,
  history,
}
use imagegen_bridge.Runtime.Idempotency.Uniqueness.{history-Distinct}
use imagegen_bridge.Runtime.Idempotency.Flight.{IsInFlight}
use imagegen_bridge.Runtime.Idempotency.Flight.Calls.{IsQuiet, history-IsInFlight}
use imagegen_bridge.Runtime.Idempotency.Answers.{begin-locked, begin-leader}
use imagegen_bridge.Runtime.Idempotency.Answers.Replay.{
  IsReported, update-IsReported, begin_locked-reported,
}

-- The error that is kept.
abbrev pub unknown_error : BridgeError → BridgeError
unknown_error e = with_detail "outcome" (Json.text "unknown") (with_retryable false e)

module _ {R : Type 0} (codec : Codec R) (c : IdempotencyConfig) where
  fail-IsReported :
      (key : RecordKey) (owner : String) (now started : ℕ) (e : BridgeError)
      (s : IdempotencyState R)
      → is_unknown e ≡ true
      → IsInFlight key started owner s.entries
      → IsReported key owner
          (now + c.unknown_ttl)
          (EntryOutcome.unknown (unknown_error e))
          (fail codec c (record { record_key = key; fingerprint = owner }) e now s).entries
  unfolding fail fail_current
  fail-IsReported key owner now started e s unknown f =
      let same : text_eq f.entry.fingerprint owner ≡ true =
        (text_eq_iff f.entry.fingerprint owner).1 f.pending.owned in
      rw (f.found, same, unknown, fail, fail_current)
        (update-IsReported c key owner started (now + c.unknown_ttl) _ s.entries f refl
          f.pending.owned)

  -- A request whose outcome is unknown is not run again: under the conditions of a leader at work,
  -- once the leader has reported an error that says so, the next `begin` with an accepted scope and
  -- the leader's fingerprint, less than `unknown_ttl` after the report, answers that error, marked
  -- as not to be retried.
  pub begin-after_unknown :
      (before : List (Event R)) (scope key : String) (request : ImageRequest) (started : ℕ)
      (token : IdempotencyToken)
      → (begin codec c scope key request started (history codec c (empty_state R) before)).1
        ≡ ok (IdempotencyAction.leader token)
      → (events : List (Event R))
      → All (IsQuiet c (record { scope = scope; key = key }) started) events
      → (e : BridgeError) (reported : ℕ) (request' : ImageRequest) (now : ℕ) → is_unknown e ≡ true
      → (validate_scope scope >> request_fingerprint codec request') ≡ ok token.fingerprint
      → now < reported + c.unknown_ttl
      → let s = history codec c (empty_state R) before in
        let later = history codec c (begin codec c scope key request started s).0 events in
        (begin codec c scope key request' now (fail codec c token e reported later)).1
        ≡ err (unknown_error e)
  unfolding answer
  begin-after_unknown before scope key request started token h events quiet e reported request' now
        unknown made early =
      let k : RecordKey = record { scope = scope; key = key } in
      let s = history codec c (empty_state R) before in
      let led =
        begin-leader codec c scope key request started token s
          (history-Distinct codec c before (empty_state R) tt) h in
      let later = history codec c (begin codec c scope key request started s).0 events in
      let f =
        history-IsInFlight codec c k started token.fingerprint events
          (begin codec c scope key request started s).0 quiet led.1 in
      let owner = token.fingerprint in
      let own : token ≡ record { record_key = k; fingerprint = owner } =
        ap (λ r. record { record_key = r; fingerprint = owner }) led.0 in
      let s' = fail codec c (record { record_key = k; fingerprint = owner }) e reported later in
      rw (own, begin-locked codec c scope key owner request' now s' made)
        (begin_locked-reported codec c k owner now (reported + c.unknown_ttl)
          (EntryOutcome.unknown (unknown_error e)) s' early
          (fail-IsReported k owner reported started e later unknown f))
