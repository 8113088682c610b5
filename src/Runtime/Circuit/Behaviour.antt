-- ===== src/Runtime/Circuit/Behaviour.antt =====
-- What a caller of the breaker sees: who is admitted, when the circuit opens, how it recovers.
use imagegen_bridge.Prelude.{
  ℕ, ◌≤◌, ◌<◌, ◌≡◌, refl, sym, ap, ◌∙◌, subst, String, Bool, true, false, ◌↔◌, List, [], some,
  arith, u64_max, length, saturating_add_u64,
}
use imagegen_bridge.Core.Error.{
  Result, ok, err, ErrorCode, bridge_error, with_retryable, with_provider, with_detail,
}
use imagegen_bridge.Runtime.Circuit.{
  CircuitBreakerConfig, CircuitBreaker, Inner, Phase, PermitKind, System, Call, acquire, open_error,
  run, new,
}
use imagegen_bridge.Runtime.Circuit.Invariant.{IsUsable, Counts}
use imagegen_bridge.Runtime.Circuit.Runs.{IsSound, IsWord, fresh, new-IsUsable, run-new-IsSound}

-- Whether an enabled breaker lets a call through.
abbrev pub Admits : CircuitBreakerConfig → ℕ → Phase → Type 0
Admits c now (Phase.closed n) = Unit {0}
Admits c now (Phase.opened until) = (until ≤ now) × (0 < c.half_open_max_calls)
Admits c now (Phase.half_open f s) = f < c.half_open_max_calls

abbrev pub is_ok {ℓ} : {A : Type ℓ} → Result A → Bool
is_ok (ok a) = true
is_ok (err e) = false

acquire_phase-Admits :
    (c : CircuitBreakerConfig) (i : Inner) (p : Phase) (provider : String) (now : ℕ)
    → i.phase ≡ p
    → c.enabled ≡ true
    → (is_ok (acquire (record { config = c; inner = i }) provider now).1 ≡ true) ↔ Admits c now p
unfolding acquire
acquire_phase-Admits c i (Phase.closed n) provider now e on = ground arith
acquire_phase-Admits c i (Phase.opened until) provider now e on = ground arith
acquire_phase-Admits c i (Phase.half_open f s) provider now e on = ground arith

-- An enabled breaker admits a call exactly when it is closed, or open past its delay with at least
-- one probe allowed, or half-open with a probe to spare.
pub acquire-Admits :
    (b : CircuitBreaker) (provider : String) (now : ℕ)
    → b.config.enabled ≡ true
    → (is_ok (acquire b provider now).1 ≡ true) ↔ Admits b.config now b.inner.phase
acquire-Admits b provider now on =
    acquire_phase-Admits b.config b.inner b.inner.phase provider now refl on

-- What a refused caller is told.
abbrev pub IsRefusal : String → Result PermitKind → Type 0
IsRefusal provider (ok k) = ⊥
IsRefusal provider (err e) =
    (e.code ≡ ErrorCode.overloaded) × (e.retryable ≡ true) × (e.provider ≡ some provider)

-- A call that is refused, by a breaker that allows at least one probe, gets a retryable
-- `overloaded` error that names the provider; it leaves the phase, the epoch and the transition
-- counter alone and adds one to the rejected calls.
pub acquire_refused :
    (b : CircuitBreaker) (provider : String) (now : ℕ)
    → 0 < b.config.half_open_max_calls
    → is_ok (acquire b provider now).1 ≡ false
    → IsRefusal provider (acquire b provider now).1
      × ((acquire b provider now).0.inner
          ≡ record b.inner { rejected_calls = saturating_add_u64 b.inner.rejected_calls 1 })
unfolding acquire open_error with_detail with_provider with_retryable bridge_error
acquire_refused b provider now room h = ground arith

-- The earliest time at which a breaker with no permit out admits a call.
abbrev pub reopens_at : Phase → ℕ
reopens_at (Phase.closed n) = 0
reopens_at (Phase.opened until) = until
reopens_at (Phase.half_open f s) = 0

idle_phase-Admits :
    (c : CircuitBreakerConfig) (u : IsUsable c) (e : ℕ) (p : Phase) (now : ℕ)
    → Counts c e [] p
    → reopens_at p ≤ now
    → Admits c now p
idle_phase-Admits c u e (Phase.closed n) now h due = tt
idle_phase-Admits c u e (Phase.opened until) now h due = (due, u.calls)
idle_phase-Admits c u e (Phase.half_open f s) now h due = omega (arith, u.calls)

idle_admits :
    (c : CircuitBreakerConfig) (u : IsUsable c) (s : System) (provider : String) (now : ℕ)
    → IsSound c s
    → s.permits ≡ []
    → reopens_at s.breaker.inner.phase ≤ now
    → is_ok (acquire s.breaker provider now).1 ≡ true
idle_admits c u s provider now v none_out due =
    (acquire-Admits s.breaker provider now (ap (λ x. x.enabled) v.same ∙ u.enabled)).1 (
      subst (λ x. Admits x now s.breaker.inner.phase) (sym v.same)
        (idle_phase-Admits c u s.breaker.inner.epoch s.breaker.inner.phase now
          (subst (λ ks. Counts c s.breaker.inner.epoch ks s.breaker.inner.phase) none_out
            v.sound.counts)
          due))

-- A breaker never wedges: after any history on a new enabled breaker, too short for a 64-bit
-- counter to saturate, once every permit has been finished or dropped, a call at any time from the
-- end of the open delay on is admitted.
pub idle_breaker_admits :
    (c : CircuitBreakerConfig) (b : CircuitBreaker) (calls : List Call) (provider : String)
    (now : ℕ)
    → new c ≡ ok b
    → c.enabled ≡ true
    → IsWord c
    → length calls < u64_max
    → let s = run (fresh b) calls in
      s.permits ≡ []
      → reopens_at s.breaker.inner.phase ≤ now
      → is_ok (acquire s.breaker provider now).1 ≡ true
idle_breaker_admits c b calls provider now h on w short none_out due =
    idle_admits c (new-IsUsable c h on w) (run (fresh b) calls) provider now
      (run-new-IsSound c b calls h on w short) none_out due
