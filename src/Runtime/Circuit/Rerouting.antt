-- ===== src/Runtime/Circuit/Rerouting.antt =====
-- A refusal of crates/runtime/src/circuit_breaker.rs sends crates/runtime/src/orchestrator.rs to the
-- next route.
use imagegen_bridge.Prelude.{
  ℕ, String, ◌≡◌, refl, subst, true, ltb, arith, Bool-cases, inl, inr, lookup, insert,
}
use imagegen_bridge.Core.Error.{
  Json, BridgeError, bridge_error, with_retryable, with_detail, with_provider, Result, ok, err,
}
use imagegen_bridge.Core.Parameters.{FallbackPolicy}
use imagegen_bridge.Runtime.Routing.Policy.{
  has_unknown_outcome, should_fallback, is_final, is_unavailable,
}
use imagegen_bridge.Runtime.Circuit.{
  CircuitBreakerConfig, CircuitBreaker, Inner, Phase, open_error, recover, admit, acquire,
}

-- What routing does with the answer of a breaker.
abbrev pub GoesOn : {A : Type 0} → FallbackPolicy → Result A → Type 0
GoesOn policy (ok k) = Unit
GoesOn policy (err e) = should_fallback e policy ≡ true

open_error-fallback :
    (provider : String) (ms : ℕ) (policy : FallbackPolicy)
    → should_fallback (open_error provider ms) policy ≡ true
unfolding should_fallback has_unknown_outcome is_final is_unavailable open_error with_detail
    with_provider with_retryable bridge_error lookup insert
open_error-fallback provider ms policy = refl

half_open_error-fallback :
    (provider : String) (ms : ℕ) (policy : FallbackPolicy)
    → should_fallback
        (with_detail "circuit_state" (Json.text "half_open") (open_error provider ms))
        policy
      ≡ true
unfolding should_fallback has_unknown_outcome is_final is_unavailable open_error with_detail
    with_provider with_retryable bridge_error lookup insert
half_open_error-fallback provider ms policy = refl

admit-GoesOn :
    (config : CircuitBreakerConfig) (provider : String) (now : ℕ) (i : Inner) (phase : Phase)
    (policy : FallbackPolicy)
    → GoesOn policy (admit config provider now i phase).1
unfolding admit
admit-GoesOn config provider now i (Phase.closed n) policy = tt
admit-GoesOn config provider now i (Phase.opened until) policy =
    open_error-fallback provider _ policy
admit-GoesOn config provider now i (Phase.half_open in_flight successes) policy =
    elim (Bool-cases (ltb in_flight config.half_open_max_calls)) [
      | inl room ↦ rw (room, admit) tt
      | inr full ↦ rw (full, admit) (half_open_error-fallback provider _ policy)
    ]

-- The error with which a circuit breaker refuses a call sends the request to its next route, under
-- either policy.
pub acquire-fallback :
    (b : CircuitBreaker) (provider : String) (now : ℕ) (policy : FallbackPolicy) (e : BridgeError)
    → (acquire b provider now).1 ≡ err e
    → should_fallback e policy ≡ true
unfolding acquire
acquire-fallback b provider now policy e h = elim (Bool-cases b.config.enabled) [
  | inl on ↦
      let i = recover now b.inner in
      let refused : (admit b.config provider now i i.phase).1 ≡ err e = ground (arith, h, on) in
      subst (GoesOn policy) refused (admit-GoesOn b.config provider now i i.phase policy)
  | inr off ↦ absurd ground (arith, h, off)
]
