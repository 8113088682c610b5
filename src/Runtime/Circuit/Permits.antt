-- ===== src/Runtime/Circuit/Permits.antt =====
-- The permits in the hands of callers, counted by kind and epoch.
use imagegen_bridge.Prelude.{
  ℕ, zero, suc, ◌+◌, ◌≤◌, ◌≡◌, refl, List, [], ◌∷◌, some, ◌==◌, if◌then◌else◌, arith, get_elem?,
  erase_idx, All,
}
use imagegen_bridge.Runtime.Circuit.{PermitKind}

-- 1 for a probe of the epoch, 0 for any other permit.
abbrev pub is_probe : ℕ → PermitKind → ℕ
is_probe e (PermitKind.half_open e') = if e' == e then 1 else 0
is_probe e _ = 0

-- 1 for an ordinary permit of the epoch.
abbrev pub is_ordinary : ℕ → PermitKind → ℕ
is_ordinary e (PermitKind.closed e') = if e' == e then 1 else 0
is_ordinary e _ = 0

pub probe_self : (e : ℕ) → is_probe e (PermitKind.half_open e) ≡ 1
probe_self e = ground arith

abbrev pub total : (PermitKind → ℕ) → List PermitKind → ℕ
total f [] = 0
total f (k ∷ ks) = f k + total f ks

abbrev pub IsOld : ℕ → PermitKind → Type 0
IsOld e (PermitKind.closed e') = e' ≤ e
IsOld e (PermitKind.half_open e') = e' ≤ e
IsOld e PermitKind.disabled = Unit {0}

pub total-erase :
    (f : PermitKind → ℕ) (ks : List PermitKind) (i : ℕ) (k : PermitKind)
    → get_elem? ks i ≡ some k
    → total f ks ≡ f k + total f (erase_idx ks i)
total-erase f [] i k h = cc
total-erase f (x ∷ ks) zero k h = ground arith
total-erase f (x ∷ ks) (suc i) k h = omega (arith, total-erase f ks i k h)

pub All-erase :
    (e : ℕ) (ks : List PermitKind) (i : ℕ) → All (IsOld e) ks → All (IsOld e) (erase_idx ks i)
All-erase e [] i h = tt
All-erase e (k ∷ ks) zero h = h.1
All-erase e (k ∷ ks) (suc i) h = (h.0, All-erase e ks i h.1)

IsOld-suc : (e : ℕ) (k : PermitKind) → IsOld e k → IsOld (e + 1) k
IsOld-suc e (PermitKind.closed e') h = omega arith
IsOld-suc e (PermitKind.half_open e') h = omega arith
IsOld-suc e PermitKind.disabled h = tt

pub All-suc : (e : ℕ) (ks : List PermitKind) → All (IsOld e) ks → All (IsOld (e + 1)) ks
All-suc e [] h = tt
All-suc e (k ∷ ks) h = (IsOld-suc e k h.0, All-suc e ks h.1)

is_probe_fresh : (e : ℕ) (k : PermitKind) → IsOld e k → is_probe (e + 1) k ≡ 0
is_probe_fresh e (PermitKind.closed e') h = refl
is_probe_fresh e (PermitKind.half_open e') h = ground arith
is_probe_fresh e PermitKind.disabled h = refl

is_ordinary_fresh : (e : ℕ) (k : PermitKind) → IsOld e k → is_ordinary (e + 1) k ≡ 0
is_ordinary_fresh e (PermitKind.closed e') h = ground arith
is_ordinary_fresh e (PermitKind.half_open e') h = refl
is_ordinary_fresh e PermitKind.disabled h = refl

-- No permit belongs to an epoch that has not begun.
pub probes_fresh :
    (e : ℕ) (ks : List PermitKind) → All (IsOld e) ks → total (is_probe (e + 1)) ks ≡ 0
probes_fresh e [] h = refl
probes_fresh e (k ∷ ks) h = omega (arith, is_probe_fresh e k h.0, probes_fresh e ks h.1)

pub ordinary_fresh :
    (e : ℕ) (ks : List PermitKind) → All (IsOld e) ks → total (is_ordinary (e + 1)) ks ≡ 0
ordinary_fresh e [] h = refl
ordinary_fresh e (k ∷ ks) h = omega (arith, is_ordinary_fresh e k h.0, ordinary_fresh e ks h.1)
