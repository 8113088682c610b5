-- ===== src/Runtime/Routing/Policy.antt =====
-- What crates/runtime/src/orchestrator.rs makes of an error: whether another route is tried, and
-- whether the outcome is known.
use imagegen_bridge.Prelude.{
  ℕ, leb, String, Bool, true, false, ◌&&◌, not, Option, none, some, if◌then◌else◌, text_eq, lookup,
}
use imagegen_bridge.Core.Error.{
  ErrorCode, Json, BridgeError, bridge_error, with_retryable, with_detail, Result, ok, err,
}
use imagegen_bridge.Core.Parameters.{FallbackPolicy}

-- Whether the error says that the outcome is unknown.
unfoldable pub has_unknown_outcome : BridgeError → Bool
has_unknown_outcome e = elim (lookup "outcome" e.details) [
  | some (Json.text outcome) ↦ text_eq outcome "unknown"
  | _ ↦ false
]

-- The codes after which no other route is tried.
unfoldable pub is_final : ErrorCode → Bool
is_final ErrorCode.invalid_request = true
is_final ErrorCode.permission_denied = true
is_final ErrorCode.safety_rejected = true
is_final ErrorCode.cancelled = true
is_final ErrorCode.session = true
is_final ErrorCode.idempotency_conflict = true
is_final _ = false

-- The codes of a provider that is not available.
unfoldable pub is_unavailable : ErrorCode → Bool
is_unavailable ErrorCode.configuration = true
is_unavailable ErrorCode.authentication = true
is_unavailable ErrorCode.unsupported_capability = true
is_unavailable ErrorCode.rate_limited = true
is_unavailable ErrorCode.overloaded = true
is_unavailable _ = false

-- The codes after which another route is tried under `on_error` only.
unfoldable pub is_failure : ErrorCode → Bool
is_failure ErrorCode.upstream = true
is_failure ErrorCode.protocol = true
is_failure ErrorCode.artifact = true
is_failure ErrorCode.input = true
is_failure ErrorCode.internal = true
is_failure _ = false

abbrev pub is_on_error : FallbackPolicy → Bool
is_on_error FallbackPolicy.on_error = true
is_on_error _ = false

unfoldable pub should_fallback : BridgeError → FallbackPolicy → Bool
unfolding has_unknown_outcome is_final is_unavailable is_failure
should_fallback e policy =
    if has_unknown_outcome e
    then false
    else if is_final e.code
    then false
    else if is_unavailable e.code
    then true
    else is_on_error policy && is_failure e.code

abbrev pub is_interrupted : ErrorCode → Bool
is_interrupted ErrorCode.timeout = true
is_interrupted ErrorCode.cancelled = true
is_interrupted _ = false

-- classify_provider_execution_result
unfoldable pub classify : {T : Type 0} → Result T → Result T
unfolding has_unknown_outcome
classify (ok t) = ok t
classify (err e) =
    if is_interrupted e.code && not (has_unknown_outcome e)
    then err (with_detail "outcome" (Json.text "unknown") (with_retryable false e))
    else err e

unfoldable pub unknown_outcome_error : ErrorCode → String → BridgeError
unknown_outcome_error code message =
    with_detail "outcome" (Json.text "unknown") (with_retryable false (bridge_error code message))

-- What the provider's future came to within the grace period of an interrupted execution.
unfoldable pub after_interruption : {T : Type 0} → ErrorCode → String → Option (Result T) → Result T
after_interruption code message (some (ok t)) = ok t
after_interruption code message (some (err e)) =
    if is_interrupted e.code then err (unknown_outcome_error code message) else err e
after_interruption code message none = err (unknown_outcome_error code message)

-- How the race between the provider's future, the cancellations and the deadline ends.
pub data Race (T : Type 0) : Type 0 where
  answered : Result T → Race T
  interrupted : ErrorCode → String → Option (Result T) → Race T

unfoldable pub timeout_error : BridgeError
timeout_error = with_retryable true (bridge_error ErrorCode.timeout "request deadline elapsed")

-- A deadline that has passed ends the execution before the race.
unfoldable pub await_provider_execution : {T : Type 0} → ℕ → ℕ → Race T → Result T
unfolding classify after_interruption timeout_error
await_provider_execution deadline now race =
    if leb deadline now then err timeout_error else elim race [
      | Race.answered result ↦ classify result
      | Race.interrupted code message grace ↦ after_interruption code message grace
    ]
