-- ===== src/Runtime/Circuit/RetryAfter.antt =====
-- The delay that crates/runtime/src/circuit_breaker.rs tells a refused caller, in whole milliseconds.
use imagegen_bridge.Prelude.{
  ℕ, ◌+◌, ◌*◌, ◌-◌, ◌≤◌, ◌<◌, ◌≡◌, ◌⊎◌, ◌↔◌, inl, inr, Bool-cases, refl, sym, ap, ◌∙◌, subst,
  String, true, false, some, arith, u64_max, lookup, insert, text_eq,
}
use imagegen_bridge.Core.Error.{
  Result, ok, err, Json, bridge_error, with_retryable, with_provider, with_detail,
}
use imagegen_bridge.Runtime.Circuit.{
  CircuitBreakerConfig, CircuitBreaker, CircuitState, Inner, Phase, PermitKind, acquire,
  duration_ms, open_error, snapshot,
}
use imagegen_bridge.Runtime.Circuit.Behaviour.{is_ok, Admits, acquire-Admits, acquire_refused}

-- What the error of a refused call says about the circuit and the time to wait.
abbrev pub Tells : String → ℕ → Result PermitKind → Type 0
Tells state ms (ok k) = ⊥
Tells state ms (err e) =
    (lookup "circuit_state" e.details ≡ some (Json.text state))
    × (lookup "retry_after_ms" e.details ≡ some (Json.number ms))

-- An error tells one thing.
told_same :
    (a b : String) (ms n : ℕ) (r : Result PermitKind)
    → Tells a ms r
    → Tells b n r
    → (a ≡ b) × (ms ≡ n)
told_same a b ms n (ok k) h h' = absurd h
told_same a b ms n (err e) h h' =
    let states : some (Json.text a) ≡ some (Json.text b) = sym h.0 ∙ h'.0 in
    let times : some (Json.number ms) ≡ some (Json.number n) = sym h.1 ∙ h'.1 in (cc, cc)

told_refused : (a : String) (ms : ℕ) (r : Result PermitKind) → Tells a ms r → is_ok r ≡ false
told_refused a ms (ok k) h = absurd h
told_refused a ms (err e) h = refl

pub open_error-Tells : (provider : String) (ms : ℕ) → Tells "open" ms (err (open_error provider ms))
unfolding open_error with_detail with_provider with_retryable bridge_error lookup insert
open_error-Tells provider ms = (refl, refl)

half_open_error-Tells :
    (provider : String) (ms : ℕ)
    → Tells "half_open" ms
        (err (with_detail "circuit_state" (Json.text "half_open") (open_error provider ms)))
unfolding open_error with_detail with_provider with_retryable bridge_error lookup insert
half_open_error-Tells provider ms = (refl, refl)

acquire-open_error :
    (b : CircuitBreaker) (provider : String) (until now : ℕ)
    → b.config.enabled ≡ true
    → b.inner.phase ≡ Phase.opened until
    → now < until
    → (acquire b provider now).1 ≡ err (open_error provider (duration_ms (until - now)))
unfolding acquire
acquire-open_error b provider until now on p early = ground arith

acquire-half_open_error :
    (c : CircuitBreakerConfig) (i : Inner) (f n : ℕ) (provider : String) (now : ℕ)
    → i.phase ≡ Phase.half_open f n
    → is_ok (acquire (record { config = c; inner = i }) provider now).1 ≡ false
    → (acquire (record { config = c; inner = i }) provider now).1
      ≡ err (
          with_detail "circuit_state"
            (Json.text "half_open")
            (open_error provider (duration_ms c.open_duration)))
unfolding acquire
acquire-half_open_error c i f n provider now p refused = ground arith

open≢half_open : ¬ ◌≡◌ {A = String} "open" "half_open"
open≢half_open h = let e : false ≡ true = ap (text_eq "half_open") h in ground (arith, e)

closed_admits :
    (c : CircuitBreakerConfig) (i : Inner) (n : ℕ) (provider : String) (now : ℕ)
    → i.phase ≡ Phase.closed n
    → ¬ is_ok (acquire (record { config = c; inner = i }) provider now).1 ≡ false
unfolding acquire
closed_admits c i n provider now e refused = ground arith

opened_refuses :
    (c : CircuitBreakerConfig) (i : Inner) (until : ℕ) (provider : String) (now : ℕ)
    → i.phase ≡ Phase.opened until
    → 0 < c.half_open_max_calls
    → is_ok (acquire (record { config = c; inner = i }) provider now).1 ≡ false
    → (c.enabled ≡ true) × (now < until)
unfolding acquire
opened_refuses c i until provider now e room refused = (ground arith, ground arith)

-- Only an open circuit before its time tells a caller that it is open.
acquire_phase-Tells :
    (c : CircuitBreakerConfig) (i : Inner) (p : Phase) (provider : String) (now ms : ℕ)
    → i.phase ≡ p
    → 0 < c.half_open_max_calls
    → let r = (acquire (record { config = c; inner = i }) provider now).1 in
      Tells "open" ms r
      → (until : ℕ) × (i.phase ≡ Phase.opened until)
        × (c.enabled ≡ true)
        × (now < until)
        × (ms ≡ duration_ms (until - now))
acquire_phase-Tells c i (Phase.closed n) provider now ms e room h =
    let refused =
      told_refused "open" ms (acquire (record { config = c; inner = i }) provider now).1 h in
    absurd (closed_admits c i n provider now e refused)
acquire_phase-Tells c i (Phase.opened until) provider now ms e room h =
    let refused =
      told_refused "open" ms (acquire (record { config = c; inner = i }) provider now).1 h in
    let (on, early) = opened_refuses c i until provider now e room refused in
    let error =
      acquire-open_error (record { config = c; inner = i }) provider until now on e early in
    (
      until,
      e,
      on,
      early,
      (told_same "open" "open" ms (duration_ms (until - now))
          (err (open_error provider (duration_ms (until - now)))) (subst (Tells "open" ms) error h)
          (open_error-Tells provider (duration_ms (until - now)))).1,
    )
acquire_phase-Tells c i (Phase.half_open f n) provider now ms e room h =
    let refused =
      told_refused "open" ms (acquire (record { config = c; inner = i }) provider now).1 h in
    let error = acquire-half_open_error c i f n provider now e refused in
    absurd (
      open≢half_open
        (told_same "open" "half_open" ms (duration_ms c.open_duration)
          (err (
            with_detail "circuit_state" (Json.text "half_open")
              (open_error provider (duration_ms c.open_duration))))
          (subst (Tells "open" ms) error h)
          (half_open_error-Tells provider (duration_ms c.open_duration))).0)

told_ms :
    (until now ms : ℕ)
    → now < until
    → ms ≡ duration_ms (until - now)
    → ms < u64_max
    → (now + ms * 1_000_000 ≤ until) × (until ≤ now + (ms + 1) * 1_000_000)
unfolding duration_ms
told_ms until now ms early h short =
    (ground (arith, early, h, short), ground (arith, early, h, short))

acquire-config :
    (b : CircuitBreaker) (provider : String) (now : ℕ)
    → (acquire b provider now).0.config ≡ b.config
unfolding acquire
acquire-config b provider now = ground arith

-- The circuit after the refusal, which is open until the same time.
after_refusal :
    (b : CircuitBreaker) (provider : String) (until now : ℕ)
    → b.config.enabled ≡ true
    → 0 < b.config.half_open_max_calls
    → b.inner.phase ≡ Phase.opened until
    → is_ok (acquire b provider now).1 ≡ false
    → (later : ℕ)
    → (is_ok (acquire (acquire b provider now).0 provider later).1 ≡ true) ↔ (until ≤ later)
after_refusal b provider until now on room p refused later =
    let left = (acquire b provider now).0 in
    let same = acquire-config b provider now in
    let phase = ap (λ i. i.phase) (acquire_refused b provider now room refused).1 ∙ p in
    let admits =
      subst (λ x. (is_ok (acquire left provider later).1 ≡ true) ↔ Admits b.config later x) phase
        (subst
          (λ c. (is_ok (acquire left provider later).1 ≡ true) ↔ Admits c later left.inner.phase)
          same (acquire-Admits left provider later (ap (λ c. c.enabled) same ∙ on))) in
    (λ admitted. (admits.0 admitted).0, λ due. admits.1 (due, room))

snapshot-opened :
    (b : CircuitBreaker) (until now : ℕ)
    → b.inner.phase ≡ Phase.opened until
    → ((snapshot b now).state ≡ CircuitState.opened)
      × ((snapshot b now).retry_after_ms ≡ duration_ms (until - now))
unfolding snapshot
snapshot-opened b until now p = (ground arith, ground arith)

-- The delay that a refused caller is told is right to the millisecond: where the error says that
-- the circuit is open, and a delay that has not saturated, then the breaker that is left refuses
-- each call before the delay is over and admits a call at any time from one millisecond after that
-- on. The snapshot at the time of the refusal tells the same state and delay. At least one probe is
-- allowed.
pub acquire-retry_after :
    (b : CircuitBreaker) (provider : String) (now ms early extra : ℕ)
    → 0 < b.config.half_open_max_calls
    → Tells "open" ms (acquire b provider now).1
    → ms < u64_max
    → let left = (acquire b provider now).0 in
      ((is_ok (acquire left provider early).1 ≡ false) ⊎ (now + ms * 1_000_000 ≤ early))
      × (is_ok (acquire left provider (now + (ms + 1) * 1_000_000 + extra)).1 ≡ true)
      × ((snapshot b now).state ≡ CircuitState.opened)
      × ((snapshot b now).retry_after_ms ≡ ms)
acquire-retry_after b provider now ms early extra room told short =
    let (until, p, on, before, rounded) =
      acquire_phase-Tells b.config b.inner b.inner.phase provider now ms refl room told in
    let (soonest, latest) = told_ms until now ms before rounded short in
    let refused = told_refused "open" ms (acquire b provider now).1 told in
    let admits = after_refusal b provider until now on room p refused in
    let seen = snapshot-opened b until now p in
    (
      elim (Bool-cases (is_ok (acquire (acquire b provider now).0 provider early).1)) [
        | inl admitted ↦ inr (omega (arith, soonest, (admits early).0 admitted))
        | inr denied ↦ inl denied
      ],
      (admits (now + (ms + 1) * 1_000_000 + extra)).1 (omega (arith, latest)),
      seen.0,
      seen.1 ∙ sym rounded,
    )
