-- ===== src/Runtime/Circuit/Recovery.antt =====
-- How an open circuit recovers through probes made one after the other.
use imagegen_bridge.Prelude.{
  ℕ, ◌+◌, ◌≤◌, ◌<◌, ◌≡◌, refl, ap, ◌∙◌, String, true, false, inl, inr, List, [], ◌∷◌, arith, leb,
  saturating_add_u64, Bool-cases,
}
use imagegen_bridge.Core.Error.{Result}
use imagegen_bridge.Runtime.Circuit.{
  CircuitBreakerConfig, Inner, Phase, PermitKind, Outcome, acquires, finishes, acquire, settle,
  complete, outcome_of, step, run,
}
use imagegen_bridge.Runtime.Circuit.Invariant.{IsUsable, inner}
use imagegen_bridge.Runtime.Circuit.Runs.{fresh}
use imagegen_bridge.Runtime.Circuit.Serial.{
  scan, verdict, one_by_one, alone, Outcome-cases, phase_after, one_by_one_opened,
  one_by_one_closed,
}

-- The phase after probes, from one with this many successes: the first failure opens the circuit
-- again, and enough successes in a row close it.
abbrev pub scan_probes : CircuitBreakerConfig → ℕ → ℕ → List (Result (Unit {0})) → Phase
scan_probes c now s [] = Phase.half_open 0 s
scan_probes c now s (r ∷ rs) = elim (outcome_of r) [
  | Outcome.healthy ↦ elim (leb c.success_threshold (s + 1)) [
    | true ↦ verdict c now (scan c.failure_threshold 0 rs)
    | false ↦ scan_probes c now (s + 1) rs
  ]
  | Outcome.failed ↦ Phase.opened (now + c.open_duration)
  | Outcome.neutral ↦ Phase.opened (now + c.open_duration)
]

module _ (c : CircuitBreakerConfig) (u : IsUsable c) (provider : String) (now : ℕ) where
  attempt_due :
      (until e r t : ℕ) (res : Result (Unit {0}))
      → until ≤ now
      → step
          (step (alone c (Phase.opened until) e r t) (acquires provider now))
          (finishes 0 now res)
        ≡ step
            (step
              (alone c (Phase.half_open 0 0) (saturating_add_u64 e 1) r (saturating_add_u64 t 1))
              (acquires provider now))
            (finishes 0 now res)
  unfolding step acquire complete
  attempt_due until e r t res due = simp u.enabled (ground arith)

  attempt_probe :
      (s e r t : ℕ) (res : Result (Unit {0})) (o : Outcome)
      → outcome_of res ≡ o
      → step
          (step (alone c (Phase.half_open 0 s) e r t) (acquires provider now))
          (finishes 0 now res)
        ≡ fresh (record {
          config = c;
          inner =
              settle c now
                (inner (Phase.half_open 1 s) e r t)
                (Phase.half_open 1 s)
                (PermitKind.half_open e)
                o;
        })
  unfolding step acquire complete
  attempt_probe s e r t res o eq = simp u.enabled (ground (arith, u.calls))

  probe_closes :
      (s e r t : ℕ)
      → s < c.success_threshold
      → leb c.success_threshold (s + 1) ≡ true
      → settle c now
          (inner (Phase.half_open 1 s) e r t)
          (Phase.half_open 1 s)
          (PermitKind.half_open e)
          Outcome.healthy
        ≡ inner (Phase.closed 0) (saturating_add_u64 e 1) r (saturating_add_u64 t 1)
  unfolding settle
  probe_closes s e r t h done = ground (arith, u.successes_u32)

  probe_counts :
      (s e r t : ℕ)
      → s < c.success_threshold
      → leb c.success_threshold (s + 1) ≡ false
      → settle c now
          (inner (Phase.half_open 1 s) e r t)
          (Phase.half_open 1 s)
          (PermitKind.half_open e)
          Outcome.healthy
        ≡ inner (Phase.half_open 0 (s + 1)) e r t
  unfolding settle
  probe_counts s e r t h more = ground (arith, u.successes_u32)

  abbrev reopened : ℕ → ℕ → ℕ → Inner
  reopened e r t =
      inner (Phase.opened (now + c.open_duration)) (saturating_add_u64 e 1) r
        (saturating_add_u64 t 1)

  probe_failed :
      (s e r t : ℕ)
      → settle c now
          (inner (Phase.half_open 1 s) e r t)
          (Phase.half_open 1 s)
          (PermitKind.half_open e)
          Outcome.failed
        ≡ reopened e r t
  unfolding settle
  probe_failed s e r t = refl

  probe_neutral :
      (s e r t : ℕ)
      → settle c now
          (inner (Phase.half_open 1 s) e r t)
          (Phase.half_open 1 s)
          (PermitKind.half_open e)
          Outcome.neutral
        ≡ reopened e r t
  unfolding settle
  probe_neutral s e r t = refl

  abbrev phase_from : List (Result (Unit {0})) → Inner → Phase
  phase_from rs i = phase_after c u provider now rs (fresh (record { config = c; inner = i }))

  one_by_one_reopened :
      (e r t : ℕ) (rs : List (Result (Unit {0})))
      → phase_from rs (reopened e r t) ≡ Phase.opened (now + c.open_duration)
  one_by_one_reopened e r t rs =
      one_by_one_opened c u provider now (now + c.open_duration) (saturating_add_u64 e 1) r
        (saturating_add_u64 t 1) rs (omega (arith, u.duration))

  one_by_one_half_open :
      (s e r t : ℕ) (rs : List (Result (Unit {0})))
      → s < c.success_threshold
      → phase_after c u provider now rs (alone c (Phase.half_open 0 s) e r t)
        ≡ scan_probes c now s rs
  unfolding run
  one_by_one_half_open s e r t [] h = refl
  one_by_one_half_open s e r t (res ∷ rs) h = elim (Outcome-cases (outcome_of res)) [
    | inl eq ↦
        rw (eq, scan_probes)
          (ap (phase_after c u provider now rs) (attempt_probe s e r t res Outcome.healthy eq)
            ∙ elim (Bool-cases (leb c.success_threshold (s + 1))) [
              | inl done ↦
                  rw (done, scan_probes)
                    (ap (phase_from rs) (probe_closes s e r t h done)
                      ∙ one_by_one_closed c u provider now 0 (saturating_add_u64 e 1) r
                          (saturating_add_u64 t 1) rs u.failures)
              | inr more ↦
                  rw (more, scan_probes)
                    (ap (phase_from rs) (probe_counts s e r t h more)
                      ∙ one_by_one_half_open (s + 1) e r t rs (ground arith))
            ])
    | inr (inl eq) ↦
        rw (eq, scan_probes)
          (ap (phase_after c u provider now rs) (attempt_probe s e r t res Outcome.failed eq)
            ∙ ap (phase_from rs) (probe_failed s e r t)
            ∙ one_by_one_reopened e r t rs)
    | inr (inr eq) ↦
        rw (eq, scan_probes)
          (ap (phase_after c u provider now rs) (attempt_probe s e r t res Outcome.neutral eq)
            ∙ ap (phase_from rs) (probe_neutral s e r t)
            ∙ one_by_one_reopened e r t rs)
  ]

-- Serial calls on an open circuit whose delay has passed: as many healthy probes in a row as
-- `success_threshold` close it, and it then counts failures from none; the first probe before that
-- which is not healthy opens it for another `open_duration`.
pub one_by_one-scan_probes :
    (c : CircuitBreakerConfig) (u : IsUsable c) (provider : String) (until e rejected t now : ℕ)
    (res : Result (Unit {0})) (rs : List (Result (Unit {0})))
    → until ≤ now
    → (run
        (alone c (Phase.opened until) e rejected t)
        (one_by_one provider now (res ∷ rs))).breaker.inner.phase
      ≡ scan_probes c now 0 (res ∷ rs)
unfolding run
one_by_one-scan_probes c u provider until e rejected t now res rs due =
    ap (phase_after c u provider now rs) (attempt_due c u provider now until e rejected t res due)
    ∙ one_by_one_half_open c u provider now 0 (saturating_add_u64 e 1) rejected
        (saturating_add_u64 t 1) (res ∷ rs) u.successes
