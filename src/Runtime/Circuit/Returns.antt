-- ===== src/Runtime/Circuit/Returns.antt =====
-- A permit that comes back to the breaker of crates/runtime/src/circuit_breaker.rs, finished or dropped.
use imagegen_bridge.Prelude.{
  ℕ, ◌<◌, ◌≡◌, refl, subst, inl, inr, List, some, arith, get_elem?, erase_idx, Bool-cases, ◌==◌,
  ==_iff, u64_max,
}
use imagegen_bridge.Runtime.Circuit.{
  CircuitBreakerConfig, Inner, Phase, PermitKind, Outcome, settle_current, release, abandon,
}
use imagegen_bridge.Runtime.Circuit.Permits.{
  is_probe, is_ordinary, total-erase, probe_self, All-erase,
}
use imagegen_bridge.Runtime.Circuit.Invariant.{
  IsUsable, Inv, inner, erase-Inv, settle_closed-Inv, settle_probe-Inv,
}

module _ (c : CircuitBreakerConfig) (u : IsUsable c) (ks : List PermitKind) (j : ℕ) where
  pub settle_current-Inv :
      (i : Inner) (k : PermitKind) (now : ℕ) (o : Outcome)
      → get_elem? ks j ≡ some k
      → i.epoch < u64_max
      → Inv i c ks
      → Inv (settle_current c now i k o) c (erase_idx ks j)
  unfolding settle_current
  settle_current-Inv i (PermitKind.closed e) now o held h v = elim (Bool-cases (e == i.epoch)) [
    | inl now_current ↦
        let same : e ≡ i.epoch = (==_iff e i.epoch).0 now_current in
        rw (now_current, same)
          (settle_closed-Inv c u ks j i.epoch i.rejected_calls i.transitions now h i.phase o
            (subst (λ x. get_elem? ks j ≡ some (PermitKind.closed x)) same held) v)
    | inr stale ↦ rw stale (erase-Inv c u ks j i (PermitKind.closed e) held refl v)
  ]
  settle_current-Inv i (PermitKind.half_open e) now o held h v = elim (Bool-cases (e == i.epoch)) [
    | inl now_current ↦
        let same : e ≡ i.epoch = (==_iff e i.epoch).0 now_current in
        rw (now_current, same)
          (settle_probe-Inv c u ks j i.epoch i.rejected_calls i.transitions now h i.phase o
            (subst (λ x. get_elem? ks j ≡ some (PermitKind.half_open x)) same held) v)
    | inr stale ↦ rw stale (erase-Inv c u ks j i (PermitKind.half_open e) held (rw stale) v)
  ]
  settle_current-Inv i PermitKind.disabled now o held h v =
      erase-Inv c u ks j i PermitKind.disabled held refl v

  release-Inv :
      (e r t : ℕ) (p : Phase)
      → get_elem? ks j ≡ some (PermitKind.half_open e)
      → Inv (inner p e r t) c ks
      → Inv (release (inner p e r t) p) c (erase_idx ks j)
  unfolding release
  release-Inv e r t (Phase.half_open f s) held v = record {
    counts = omega (
      arith,
      v.counts,
      probe_self e,
      total-erase (is_probe e) ks j _ held,
      total-erase (is_ordinary e) ks j _ held,
    );
    old = All-erase e ks j v.old;
    together = v.together;
  }
  release-Inv e r t (Phase.closed n) held v = record {
    counts = omega (arith, v.counts, total-erase (is_probe e) ks j _ held);
    old = All-erase e ks j v.old;
    together = v.together;
  }
  release-Inv e r t (Phase.opened until) held v = record {
    counts = omega (
      arith,
      v.counts,
      total-erase (is_probe e) ks j _ held,
      total-erase (is_ordinary e) ks j _ held,
    );
    old = All-erase e ks j v.old;
    together = v.together;
  }

  pub abandon-Inv :
      (i : Inner) (k : PermitKind)
      → get_elem? ks j ≡ some k
      → Inv i c ks
      → Inv (abandon (record { config = c; inner = i }) k).inner c (erase_idx ks j)
  unfolding abandon
  abandon-Inv i (PermitKind.closed e) held v =
      erase-Inv c u ks j i (PermitKind.closed e) held refl v
  abandon-Inv i PermitKind.disabled held v = erase-Inv c u ks j i PermitKind.disabled held refl v
  abandon-Inv i (PermitKind.half_open e) held v = elim (Bool-cases (e == i.epoch)) [
    | inl now_current ↦ rw now_current (
        release-Inv i.epoch i.rejected_calls i.transitions i.phase
          (subst (λ x. get_elem? ks j ≡ some (PermitKind.half_open x))
            ((==_iff e i.epoch).0 now_current) held)
          v)
    | inr stale ↦ rw stale (erase-Inv c u ks j i (PermitKind.half_open e) held (rw stale) v)
  ]
