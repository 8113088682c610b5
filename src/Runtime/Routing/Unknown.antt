-- ===== src/Runtime/Routing/Unknown.antt =====
-- Errors of crates/runtime/src/orchestrator.rs after which a request may still be running, and errors
-- of a circuit breaker that is open.
use imagegen_bridge.Prelude.{
  ℕ, ◌≤◌, ◌⊎◌, leb, leb→le, sym, String, ◌≡◌, refl, ap, ◌∙◌, subst, Bool, true, false, not, ◌&&◌,
  Option, none, some, inl, inr, arith, Bool-cases, lookup-insert_self, text_eq_iff,
}
use imagegen_bridge.Core.Error.{
  ErrorCode, Json, BridgeError, bridge_error, with_retryable, with_detail, Result, ok, err,
}
use imagegen_bridge.Core.Parameters.{FallbackPolicy}
use imagegen_bridge.Runtime.Routing.Policy.{
  has_unknown_outcome, should_fallback, is_interrupted, classify, unknown_outcome_error,
  timeout_error, after_interruption, Race, await_provider_execution,
}

marked-unknown :
    (e : BridgeError) → has_unknown_outcome (with_detail "outcome" (Json.text "unknown") e) ≡ true
unfolding has_unknown_outcome with_detail
marked-unknown e =
    rw (lookup-insert_self "outcome" (Json.text "unknown") e.details, has_unknown_outcome)
      ((text_eq_iff "unknown" "unknown").1 refl)

unknown-should_fallback :
    (e : BridgeError) (policy : FallbackPolicy)
    → has_unknown_outcome e ≡ true
    → should_fallback e policy ≡ false
unfolding should_fallback
unknown-should_fallback e policy h = rw (h, should_fallback) refl

err_inj : {T : Type 0} (r : Result T) (a b : BridgeError) → r ≡ err a → r ≡ err b → a ≡ b
err_inj r a b g h = cc

both_or_unknown : (a b : Bool) → a ≡ true → (a && not b) ≡ false → b ≡ true
both_or_unknown a true p q = refl
both_or_unknown a false p q = ground (arith, p, q)

classify-unknown :
    {T : Type 0} (result : Result T) (e : BridgeError)
    → classify result ≡ err e
    → is_interrupted e.code ≡ true
    → has_unknown_outcome e ≡ true
unfolding classify
classify-unknown (ok t) e h code = cc
classify-unknown {T} (err x) e h code =
    elim (Bool-cases (is_interrupted x.code && not (has_unknown_outcome x))) [
      | inl marked ↦
          let made : classify {T = T} (err x)
              ≡ err (with_detail "outcome" (Json.text "unknown") (with_retryable false x)) =
            rw (marked, classify) refl in
          subst (λ y. has_unknown_outcome y ≡ true) (err_inj _ _ e made h)
            (marked-unknown (with_retryable false x))
      | inr kept ↦
          let made : classify {T = T} (err x) ≡ err x = rw (kept, classify) refl in
          let same : x ≡ e = err_inj _ x e made h in
          let code' : is_interrupted x.code ≡ true = ap (λ y. is_interrupted y.code) same ∙ code in
          let unknown : has_unknown_outcome x ≡ true = both_or_unknown _ _ code' kept in
          subst (λ y. has_unknown_outcome y ≡ true) same unknown
    ]

after_interruption-unknown :
    {T : Type 0} (code : ErrorCode) (message : String) (grace : Option (Result T)) (e : BridgeError)
    → after_interruption code message grace ≡ err e
    → is_interrupted e.code ≡ true
    → has_unknown_outcome e ≡ true
unfolding after_interruption unknown_outcome_error
after_interruption-unknown {T} code message none e h c =
    let same : unknown_outcome_error code message ≡ e =
      err_inj (after_interruption {T = T} code message none) _ e refl h in
    subst (λ x. has_unknown_outcome x ≡ true) same
      (marked-unknown (with_retryable false (bridge_error code message)))
after_interruption-unknown code message (some (ok t)) e h c = cc
after_interruption-unknown {T} code message (some (err x)) e h c =
    elim (Bool-cases (is_interrupted x.code)) [
      | inl stopped ↦
          let made : after_interruption {T = T} code message (some (err x))
              ≡ err (unknown_outcome_error code message) =
            rw (stopped, after_interruption) refl in
          subst (λ y. has_unknown_outcome y ≡ true) (err_inj _ _ e made h)
            (marked-unknown (with_retryable false (bridge_error code message)))
      | inr other ↦
          let made : after_interruption {T = T} code message (some (err x)) ≡ err x =
            rw (other, after_interruption) refl in
          let same : x ≡ e = err_inj _ x e made h in
          absurd ground (arith, ap (λ y. is_interrupted y.code) same, other, c)
    ]

race-unknown :
    {T : Type 0} (deadline now : ℕ) (race : Race T) (e : BridgeError)
    → leb deadline now ≡ false
    → await_provider_execution deadline now race ≡ err e
    → is_interrupted e.code ≡ true
    → has_unknown_outcome e ≡ true
unfolding await_provider_execution
race-unknown deadline now (Race.answered result) e ahead h code =
    classify-unknown result e (sym (rw (ahead, await_provider_execution) refl) ∙ h) code
race-unknown deadline now (Race.interrupted code' message grace) e ahead h code =
    after_interruption-unknown code' message grace e
      (sym (rw (ahead, await_provider_execution) refl) ∙ h) code

late-timeout_error :
    {T : Type 0} (deadline now : ℕ) (race : Race T) (e : BridgeError)
    → leb deadline now ≡ true
    → await_provider_execution deadline now race ≡ err e
    → e ≡ timeout_error
unfolding await_provider_execution timeout_error
late-timeout_error {T} deadline now race e late h =
    let made : await_provider_execution {T = T} deadline now race ≡ err timeout_error =
      rw (late, await_provider_execution) refl in
    err_inj _ e timeout_error h made

-- If the execution of a provider ends with a timeout or a cancellation, however its race with
-- cancellation, shutdown and deadline ends, then the error says that the outcome is unknown, and no
-- policy tries another route after it; unless the deadline had passed before the execution began,
-- which is the plain timeout.
pub await_provider_execution-unknown :
    {T : Type 0} (deadline now : ℕ) (race : Race T) (e : BridgeError) (policy : FallbackPolicy)
    → await_provider_execution deadline now race ≡ err e
    → is_interrupted e.code ≡ true
    → ((deadline ≤ now) × (e ≡ timeout_error))
      ⊎ ((has_unknown_outcome e ≡ true) × (should_fallback e policy ≡ false))
await_provider_execution-unknown deadline now race e policy h code =
    elim (Bool-cases (leb deadline now)) [
      | inl late ↦ inl (leb→le deadline now late, late-timeout_error deadline now race e late h)
      | inr ahead ↦
          let unknown = race-unknown deadline now race e ahead h code in
          inr (unknown, unknown-should_fallback e policy unknown)
    ]
