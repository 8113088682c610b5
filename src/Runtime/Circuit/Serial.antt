-- ===== src/Runtime/Circuit/Serial.antt =====
-- A caller that makes its calls one after the other: when the circuit opens and how it recovers.
use imagegen_bridge.Prelude.{
  ℕ, ◌+◌, ◌<◌, ◌≡◌, refl, ap, ◌∙◌, String, true, false, ◌⊎◌, inl, inr, List, [], ◌∷◌, Option, none,
  some, arith, leb, saturating_add_u64, Bool-cases,
}
use imagegen_bridge.Core.Error.{Result, ok}
use imagegen_bridge.Runtime.Circuit.{
  CircuitBreakerConfig, CircuitBreaker, Phase, PermitKind, Outcome, System, Call, acquires,
  finishes, acquire, settle, complete, outcome_of, step, run, new,
}
use imagegen_bridge.Runtime.Circuit.Invariant.{IsUsable, inner}
use imagegen_bridge.Runtime.Circuit.Runs.{IsWord, fresh, new-IsUsable, new-eq-initial}

-- The number of ordinary calls in a row that failed, `none` once it has reached the threshold.
abbrev pub scan : ℕ → ℕ → List (Result (Unit {0})) → Option ℕ
scan threshold n [] = some n
scan threshold n (r ∷ rs) = elim (outcome_of r) [
  | Outcome.healthy ↦ scan threshold 0 rs
  | Outcome.failed ↦ elim (leb threshold (n + 1)) [
    | true ↦ none
    | false ↦ scan threshold (n + 1) rs
  ]
  | Outcome.neutral ↦ scan threshold n rs
]

-- A caller that makes its calls one after the other, all at one reading of the clock.
abbrev pub one_by_one : String → ℕ → List (Result (Unit {0})) → List Call
one_by_one provider now [] = []
one_by_one provider now (r ∷ rs) =
    acquires provider now ∷ finishes 0 now r ∷ one_by_one provider now rs

abbrev pub verdict : CircuitBreakerConfig → ℕ → Option ℕ → Phase
verdict c now none = Phase.opened (now + c.open_duration)
verdict c now (some n) = Phase.closed n

pub Outcome-cases :
    (o : Outcome) → (o ≡ Outcome.healthy) ⊎ ((o ≡ Outcome.failed) ⊎ (o ≡ Outcome.neutral))
Outcome-cases Outcome.healthy = inl refl
Outcome-cases Outcome.failed = inr (inl refl)
Outcome-cases Outcome.neutral = inr (inr refl)

-- A breaker in the given state, with no permit out.
abbrev pub alone : CircuitBreakerConfig → Phase → ℕ → ℕ → ℕ → System
alone c p e r t = fresh (record { config = c; inner = inner p e r t })

module _ (c : CircuitBreakerConfig) (u : IsUsable c) (provider : String) (now : ℕ) where
  attempt_closed :
      (n e r t : ℕ) (res : Result (Unit {0})) (o : Outcome)
      → outcome_of res ≡ o
      → step (step (alone c (Phase.closed n) e r t) (acquires provider now)) (finishes 0 now res)
        ≡ fresh (record {
          config = c;
          inner =
              settle c now (inner (Phase.closed n) e r t) (Phase.closed n) (PermitKind.closed e) o;
        })
  unfolding step acquire complete
  attempt_closed n e r t res o eq = simp (u.enabled, eq) (ground arith)

  attempt_opened :
      (n e r t : ℕ) (res : Result (Unit {0}))
      → now < n
      → step (step (alone c (Phase.opened n) e r t) (acquires provider now)) (finishes 0 now res)
        ≡ alone c (Phase.opened n) e (saturating_add_u64 r 1) t
  unfolding step acquire complete
  attempt_opened n e r t res early = simp u.enabled (ground arith)

  abbrev pub phase_after : List (Result (Unit {0})) → System → Phase
  phase_after rs s = (run s (one_by_one provider now rs)).breaker.inner.phase

  pub one_by_one_opened :
      (n e r t : ℕ) (rs : List (Result (Unit {0})))
      → now < n
      → (run (alone c (Phase.opened n) e r t) (one_by_one provider now rs)).breaker.inner.phase
        ≡ Phase.opened n
  unfolding run
  one_by_one_opened n e r t [] early = refl
  one_by_one_opened n e r t (res ∷ rs) early =
      ap (phase_after rs) (attempt_opened n e r t res early)
      ∙ one_by_one_opened n e (saturating_add_u64 r 1) t rs early

  failure_trips :
      (n e r t : ℕ)
      → n < c.failure_threshold
      → leb c.failure_threshold (n + 1) ≡ true
      → settle c now
          (inner (Phase.closed n) e r t)
          (Phase.closed n)
          (PermitKind.closed e)
          Outcome.failed
        ≡ inner
            (Phase.opened (now + c.open_duration))
            (saturating_add_u64 e 1)
            r
            (saturating_add_u64 t 1)
  unfolding settle
  failure_trips n e r t h trip = ground arith

  failure_counts :
      (n e r t : ℕ)
      → n < c.failure_threshold
      → leb c.failure_threshold (n + 1) ≡ false
      → settle c now
          (inner (Phase.closed n) e r t)
          (Phase.closed n)
          (PermitKind.closed e)
          Outcome.failed
        ≡ inner (Phase.closed (n + 1)) e r t
  unfolding settle
  failure_counts n e r t h below = ground (arith, u.failures_u32)

  pub one_by_one_closed :
      (n e r t : ℕ) (rs : List (Result (Unit {0})))
      → n < c.failure_threshold
      → (run (alone c (Phase.closed n) e r t) (one_by_one provider now rs)).breaker.inner.phase
        ≡ verdict c now (scan c.failure_threshold n rs)
  unfolding run settle
  one_by_one_closed n e r t [] h = refl
  one_by_one_closed n e r t (res ∷ rs) h = elim (Outcome-cases (outcome_of res)) [
    | inl eq ↦
        rw (eq, verdict)
          (ap (phase_after rs) (attempt_closed n e r t res Outcome.healthy eq)
            ∙ one_by_one_closed 0 e r t rs u.failures)
    | inr (inl eq) ↦
        rw (eq, verdict)
          (ap (phase_after rs) (attempt_closed n e r t res Outcome.failed eq)
            ∙ elim (Bool-cases (leb c.failure_threshold (n + 1))) [
              | inl trip ↦
                  rw (trip, verdict)
                    (ap (λ i. phase_after rs (fresh (record { config = c; inner = i })))
                        (failure_trips n e r t h trip)
                      ∙ one_by_one_opened (now + c.open_duration) (saturating_add_u64 e 1) r
                          (saturating_add_u64 t 1) rs (omega (arith, u.duration)))
              | inr below ↦
                  rw (below, verdict)
                    (ap (λ i. phase_after rs (fresh (record { config = c; inner = i })))
                        (failure_counts n e r t h below)
                      ∙ one_by_one_closed (n + 1) e r t rs (ground arith))
            ])
    | inr (inr eq) ↦
        rw (eq, verdict)
          (ap (phase_after rs) (attempt_closed n e r t res Outcome.neutral eq)
            ∙ one_by_one_closed n e r t rs h)
  ]

-- Calls made one after the other at one reading of the clock, on a new enabled breaker: the circuit
-- opens exactly when `failure_threshold` of them have failed with no success among these (a call of
-- another outcome does not count), and then stays open for `open_duration`; otherwise it is closed,
-- with the number of failures since the last success.
pub one_by_one-scan :
    (c : CircuitBreakerConfig) (b : CircuitBreaker) (provider : String) (now : ℕ)
    (rs : List (Result (Unit {0})))
    → new c ≡ ok b
    → c.enabled ≡ true
    → IsWord c
    → (run (fresh b) (one_by_one provider now rs)).breaker.inner.phase
      ≡ verdict c now (scan c.failure_threshold 0 rs)
one_by_one-scan c b provider now rs h on w =
    let u = new-IsUsable c h on w in
    rw (new-eq-initial c h) (one_by_one_closed c u provider now 0 0 0 0 rs u.failures)
