-- ===== src/Runtime/Circuit/Runs.antt =====
-- Every history of calls on a breaker that `CircuitBreaker::new` accepts.
use imagegen_bridge.Prelude.{
  ℕ, ◌+◌, ◌≤◌, ◌<◌, ◌≡◌, refl, sym, ap, true, u32_max, subst, inl, inr, List, [], ◌∷◌, arith,
  get_elem?, length, Option-cases, u64_max, String,
}
use imagegen_bridge.Core.Error.{ok}
use imagegen_bridge.Runtime.Circuit.{
  CircuitBreakerConfig, CircuitBreaker, Inner, Phase, PermitKind, Outcome, System, Call, acquires,
  finishes, drops, acquire, recover, settle, complete, abandon, outcome_of, step, run, granted, new,
}
use imagegen_bridge.Runtime.Circuit.Invariant.{IsUsable, Inv, inner, recover-Inv, admit-Inv}
use imagegen_bridge.Runtime.Circuit.Returns.{settle_current-Inv, abandon-Inv}

acquire-config :
    (b : CircuitBreaker) (provider : String) (now : ℕ)
    → (acquire b provider now).0.config ≡ b.config
unfolding acquire
acquire-config b provider now = ground arith

abandon-config : (b : CircuitBreaker) (k : PermitKind) → (abandon b k).config ≡ b.config
unfolding abandon
abandon-config b (PermitKind.closed e) = refl
abandon-config b (PermitKind.half_open e) = ground arith
abandon-config b PermitKind.disabled = refl

settle-epoch :
    (c : CircuitBreakerConfig) (now : ℕ) (i : Inner) (p : Phase) (k : PermitKind) (o : Outcome)
    → (settle c now i p k o).epoch ≤ i.epoch + 1
unfolding settle
settle-epoch c now i (Phase.closed n) (PermitKind.closed e) Outcome.healthy = ground arith
settle-epoch c now i (Phase.half_open f s) (PermitKind.half_open e) Outcome.healthy = ground arith
settle-epoch c now i p k o = ground arith

-- One call begins at most one epoch.
step-epoch :
    (s : System) (call : Call) → (step s call).breaker.inner.epoch ≤ s.breaker.inner.epoch + 1
unfolding step acquire complete abandon
step-epoch s (acquires provider now) = ground arith
step-epoch s (finishes j now result) =
    ground (arith, settle-epoch s.breaker.config now s.breaker.inner s.breaker.inner.phase)
step-epoch s (drops j) = ground arith

-- A system whose breaker has the configuration and whose counters agree with its permits.
pub record IsSound (c : CircuitBreakerConfig) (s : System) : Type 0 where
  pub same : s.breaker.config ≡ c
  pub sound : Inv s.breaker.inner c s.permits

module _ (c : CircuitBreakerConfig) (u : IsUsable c) where
  acquire-Inv :
      (i : Inner) (ks : List PermitKind) (provider : String) (now : ℕ)
      → i.epoch < u64_max
      → Inv i c ks
      → let (b, r) = acquire (record { config = c; inner = i }) provider now in
        Inv b.inner c (granted r ks)
  unfolding acquire
  acquire-Inv i ks provider now h v =
      let j = recover now i in
      simp u.enabled (
        admit-Inv c ks u j.phase j.epoch j.rejected_calls j.transitions now provider
          (recover-Inv c ks i.phase i.epoch i.rejected_calls i.transitions now h v))

  step-Inv :
      (i : Inner) (ks : List PermitKind) (call : Call)
      → i.epoch < u64_max
      → Inv i c ks
      → IsSound c (step (record { breaker = record { config = c; inner = i }; permits = ks }) call)
  unfolding step complete
  step-Inv i ks (acquires provider now) h v = record {
    same = acquire-config (record { config = c; inner = i }) provider now;
    sound = acquire-Inv i ks provider now h v;
  }
  step-Inv i ks (finishes j now result) h v = elim (Option-cases (get_elem? ks j)) [
    | inl gone ↦ rw (gone, step) (record { same = refl; sound = v })
    | inr (k, held) ↦
        rw (held, step)
          (record {
            same = refl;
            sound = settle_current-Inv c u ks j i k now (outcome_of result) held h v;
          })
  ]
  step-Inv i ks (drops j) h v = elim (Option-cases (get_elem? ks j)) [
    | inl gone ↦ rw (gone, step) (record { same = refl; sound = v })
    | inr (k, held) ↦
        rw (held, step)
          (record {
            same = abandon-config (record { config = c; inner = i }) k;
            sound = abandon-Inv c u ks j i k held v;
          })
  ]

  step-IsSound :
      (s : System) (call : Call)
      → s.breaker.inner.epoch < u64_max
      → IsSound c s
      → IsSound c (step s call)
  step-IsSound s call h v =
      let e : record {
        breaker = record { config = c; inner = s.breaker.inner };
        permits = s.permits;
      }
          ≡ s =
        ap
          (λ x. record {
            breaker = record { config = x; inner = s.breaker.inner };
            permits = s.permits;
          })
          (sym v.same) in
      subst (λ x. IsSound c (step x call)) e (step-Inv s.breaker.inner s.permits call h v.sound)

  pub run-IsSound :
      (s : System) (calls : List Call)
      → s.breaker.inner.epoch + length calls < u64_max
      → IsSound c s
      → IsSound c (run s calls)
  unfolding run
  run-IsSound s [] h v = v
  run-IsSound s (call ∷ calls) h v =
      run-IsSound (step s call) calls (omega (arith, step-epoch s call))
        (step-IsSound s call (omega arith) v)

-- The fields that the source types as `u32` are in range.
pub record IsWord (c : CircuitBreakerConfig) : Type 0 where
  pub failures : c.failure_threshold ≤ u32_max
  pub calls : c.half_open_max_calls ≤ u32_max
  pub successes : c.success_threshold ≤ u32_max

abbrev pub initial : CircuitBreakerConfig → CircuitBreaker
initial c = record { config = c; inner = inner (Phase.closed 0) 0 0 0 }

abbrev pub fresh : CircuitBreaker → System
fresh b = record { breaker = b; permits = [] }

pub new-eq-initial : (c : CircuitBreakerConfig) {b : CircuitBreaker} → new c ≡ ok b → b ≡ initial c
unfolding new
new-eq-initial c h = ground arith

-- What `CircuitBreaker::new` lets through.
pub new-IsUsable :
    (c : CircuitBreakerConfig) {b : CircuitBreaker}
    → new c ≡ ok b
    → c.enabled ≡ true
    → IsWord c
    → IsUsable c
unfolding new
new-IsUsable c h on w = ground arith

pub initial-IsSound : (c : CircuitBreakerConfig) → IsUsable c → IsSound c (fresh (initial c))
initial-IsSound c u = record {
  same = refl;
  sound = record { counts = (u.failures, refl); old = tt; together = refl };
}

-- After any history of calls on a new enabled breaker, too short for a 64-bit counter to saturate,
-- the counters agree with the permits that are out: a closed circuit counts fewer failures than its
-- threshold, a half-open one counts exactly the probes of its epoch that are out and these are at
-- most `half_open_max_calls`, and no permit is of a later epoch.
pub run-new-IsSound :
    (c : CircuitBreakerConfig) (b : CircuitBreaker) (calls : List Call)
    → new c ≡ ok b
    → c.enabled ≡ true
    → IsWord c
    → length calls < u64_max
    → IsSound c (run (fresh b) calls)
run-new-IsSound c b calls h on w short =
    let u = new-IsUsable c h on w in
    rw (new-eq-initial c h)
      (run-IsSound c u (fresh (initial c)) calls (omega arith) (initial-IsSound c u))
