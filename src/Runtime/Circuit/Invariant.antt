-- ===== src/Runtime/Circuit/Invariant.antt =====
-- What holds of a breaker and the permits of its callers between two calls.
use imagegen_bridge.Prelude.{
  ℕ, ◌+◌, ◌≤◌, ◌<◌, ◌≡◌, refl, true, inl, inr, List, some, arith, get_elem?, erase_idx, All,
  u32_max, u64_max, String, Bool-cases, subst, leb, ltb, ltb→lt, saturating_add_u64,
  saturating_add_u32, saturating_sub, ◌&&◌, ◌==◌,
}
use imagegen_bridge.Runtime.Circuit.{
  CircuitBreakerConfig, Inner, Phase, PermitKind, Outcome, enter, recover, admit, granted, settle,
}
use imagegen_bridge.Runtime.Circuit.Permits.{
  is_probe, is_ordinary, total, probe_self, IsOld, total-erase, All-erase, All-suc, probes_fresh,
  ordinary_fresh,
}

-- What `CircuitBreaker::new` accepts of an enabled breaker, with `u32` fields.
pub record IsUsable (c : CircuitBreakerConfig) : Type 0 where
  pub enabled : c.enabled ≡ true
  pub failures : 0 < c.failure_threshold
  pub failures_u32 : c.failure_threshold ≤ u32_max
  pub duration : 0 < c.open_duration
  pub calls : 0 < c.half_open_max_calls
  pub calls_u32 : c.half_open_max_calls ≤ u32_max
  pub successes : 0 < c.success_threshold
  pub successes_u32 : c.success_threshold ≤ u32_max

-- The counters of a phase agree with the permits of the current epoch.
abbrev pub Counts : CircuitBreakerConfig → ℕ → List PermitKind → Phase → Type 0
Counts c e ks (Phase.closed n) = (n < c.failure_threshold) × (total (is_probe e) ks ≡ 0)
Counts c e ks (Phase.opened until) = (total (is_probe e) ks ≡ 0) × (total (is_ordinary e) ks ≡ 0)
Counts c e ks (Phase.half_open f s) =
    (f ≡ total (is_probe e) ks) × (f ≤ c.half_open_max_calls) × (total (is_ordinary e) ks ≡ 0)

pub record Inv (i : Inner) (c : CircuitBreakerConfig) (ks : List PermitKind) : Type 0 where
  pub counts : Counts c i.epoch ks i.phase
  pub old : All (IsOld i.epoch) ks
  pub together : i.transitions ≡ i.epoch

abbrev pub inner : Phase → ℕ → ℕ → ℕ → Inner
inner p e r t = record { phase = p; epoch = e; rejected_calls = r; transitions = t }

-- The counters that a phase may begin with.
abbrev pub Starts : CircuitBreakerConfig → Phase → Type 0
Starts c (Phase.closed n) = n < c.failure_threshold
Starts c (Phase.opened until) = Unit {0}
Starts c (Phase.half_open f s) = f ≡ 0

module _ (c : CircuitBreakerConfig) (ks : List PermitKind) where
  Counts-fresh : (e : ℕ) (p : Phase) → All (IsOld e) ks → Starts c p → Counts c (e + 1) ks p
  Counts-fresh e (Phase.closed n) old h = (h, probes_fresh e ks old)
  Counts-fresh e (Phase.opened until) old h = (probes_fresh e ks old, ordinary_fresh e ks old)
  Counts-fresh e (Phase.half_open f s) old h =
      (omega (arith, probes_fresh e ks old), omega arith, ordinary_fresh e ks old)

  enter-Inv :
      (i : Inner) (p : Phase)
      → i.epoch < u64_max
      → All (IsOld i.epoch) ks
      → i.transitions ≡ i.epoch
      → Starts c p
      → Inv (enter p i) c ks
  unfolding enter
  enter-Inv i p h old together start = record {
    counts = subst (λ e. Counts c e ks p) exact (Counts-fresh i.epoch p old start);
    old = subst (λ e. All (IsOld e) ks) exact (All-suc i.epoch ks old);
    together = omega arith;
  }
    where
      exact : i.epoch + 1 ≡ saturating_add_u64 i.epoch 1
      exact = omega arith

  pub recover-Inv :
      (p : Phase) (e r t now : ℕ)
      → e < u64_max
      → Inv (inner p e r t) c ks
      → Inv (recover now (inner p e r t)) c ks
  unfolding recover
  recover-Inv (Phase.closed n) e r t now h v = v
  recover-Inv (Phase.opened until) e r t now h v = elim (Bool-cases (leb until now)) [
    | inl due ↦
        rw due (
          enter-Inv (inner (Phase.opened until) e r t) (Phase.half_open 0 0) h v.old v.together
            refl)
    | inr early ↦ rw early v
  ]
  recover-Inv (Phase.half_open f s) e r t now h v = v

  pub admit-Inv :
      (u : IsUsable c) (p : Phase) (e r t now : ℕ) (provider : String)
      → let i = inner p e r t in
        Inv i c ks → Inv (admit c provider now i p).0 c (granted (admit c provider now i p).1 ks)
  unfolding admit granted
  admit-Inv u (Phase.closed n) e r t now provider v = record {
    counts = omega arith;
    old = (omega arith, v.old);
    together = v.together;
  }
  admit-Inv u (Phase.opened until) e r t now provider v = record {
    counts = v.counts;
    old = v.old;
    together = v.together;
  }
  admit-Inv u (Phase.half_open f s) e r t now provider v =
      elim (Bool-cases (ltb f c.half_open_max_calls)) [
        | inl room ↦ rw room (record {
          counts = ground (arith, ltb→lt f c.half_open_max_calls room, u.calls_u32);
          old = (omega arith, v.old);
          together = v.together;
        })
        | inr full ↦ rw full (record { counts = v.counts; old = v.old; together = v.together })
      ]

-- What is left of the counters when the permit at a position is taken away.
module _ (c : CircuitBreakerConfig) (u : IsUsable c) (ks : List PermitKind) (j : ℕ) where
  Counts-erase :
      (e : ℕ) (k : PermitKind) (p : Phase)
      → get_elem? ks j ≡ some k
      → is_probe e k ≡ 0
      → Counts c e ks p
      → Counts c e (erase_idx ks j) p
  Counts-erase e k (Phase.closed n) held ne h = omega (arith, total-erase (is_probe e) ks j k held)
  Counts-erase e k (Phase.opened until) held ne h =
      omega (arith, total-erase (is_probe e) ks j k held, total-erase (is_ordinary e) ks j k held)
  Counts-erase e k (Phase.half_open f s) held ne h =
      omega (arith, total-erase (is_probe e) ks j k held, total-erase (is_ordinary e) ks j k held)

  pub erase-Inv :
      (i : Inner) (k : PermitKind)
      → get_elem? ks j ≡ some k
      → is_probe i.epoch k ≡ 0
      → Inv i c ks
      → Inv i c (erase_idx ks j)
  erase-Inv i k held ne v = record {
    counts = Counts-erase i.epoch k i.phase held ne v.counts;
    old = All-erase i.epoch ks j v.old;
    together = v.together;
  }

  module _ (e r t now : ℕ) (h : e < u64_max) where
    -- A current permit of a closed circuit.
    pub settle_closed-Inv :
        (p : Phase) (o : Outcome)
        → get_elem? ks j ≡ some (PermitKind.closed e)
        → Inv (inner p e r t) c ks
        → Inv (settle c now (inner p e r t) p (PermitKind.closed e) o) c (erase_idx ks j)
    unfolding settle
    settle_closed-Inv (Phase.closed n) Outcome.healthy held v =
        let w = erase-Inv (inner (Phase.closed n) e r t) (PermitKind.closed e) held refl v in
        record { counts = (u.failures, w.counts.1); old = w.old; together = w.together }
    settle_closed-Inv (Phase.closed n) Outcome.failed held v =
        let w = erase-Inv (inner (Phase.closed n) e r t) (PermitKind.closed e) held refl v in
        elim (Bool-cases (leb c.failure_threshold (saturating_add_u32 n 1))) [
          | inl trip ↦ rw trip (
              enter-Inv c (erase_idx ks j) (inner (Phase.closed n) e r t)
                (Phase.opened (now + c.open_duration)) h w.old w.together tt)
          | inr below ↦
              rw below
                (record { counts = (ground arith, w.counts.1); old = w.old; together = w.together })
        ]
    settle_closed-Inv p o held v = erase-Inv (inner p e r t) (PermitKind.closed e) held refl v

    -- A current probe.
    pub settle_probe-Inv :
        (p : Phase) (o : Outcome)
        → get_elem? ks j ≡ some (PermitKind.half_open e)
        → Inv (inner p e r t) c ks
        → Inv (settle c now (inner p e r t) p (PermitKind.half_open e) o) c (erase_idx ks j)
    unfolding settle
    settle_probe-Inv (Phase.closed n) o held v = record {
      counts = omega (arith, v.counts, total-erase (is_probe e) ks j _ held);
      old = All-erase e ks j v.old;
      together = v.together;
    }
    settle_probe-Inv (Phase.opened until) o held v = record {
      counts = omega (
        arith,
        v.counts,
        total-erase (is_probe e) ks j _ held,
        total-erase (is_ordinary e) ks j _ held,
      );
      old = All-erase e ks j v.old;
      together = v.together;
    }
    settle_probe-Inv (Phase.half_open f s) Outcome.healthy held v =
        elim (Bool-cases
          (leb c.success_threshold (saturating_add_u32 s 1) && saturating_sub f 1 == 0)) [
            | inl done ↦ rw done (
                enter-Inv c (erase_idx ks j) (inner (Phase.half_open f s) e r t) (Phase.closed 0) h
                  (All-erase e ks j v.old) v.together u.failures)
            | inr more ↦ rw more (record {
              counts = omega (
                arith,
                v.counts,
                probe_self e,
                total-erase (is_probe e) ks j _ held,
                total-erase (is_ordinary e) ks j _ held,
              );
              old = All-erase e ks j v.old;
              together = v.together;
            })
          ]
    settle_probe-Inv (Phase.half_open f s) o held v =
        enter-Inv c (erase_idx ks j) (inner (Phase.half_open f s) e r t)
          (Phase.opened (now + c.open_duration)) h (All-erase e ks j v.old) v.together tt
