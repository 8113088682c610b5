-- ===== src/Runtime/Queue/Capacity.antt =====
-- The count of the queue of crates/runtime/src/admission.rs under every interleaving.
use Prim.Native.Nat.{◌%◌}
use imagegen_bridge.Prelude.{
  ℕ, zero, suc, ◌+◌, ◌≤◌, ◌<◌, ◌≡◌, refl, sym, subst, ◌∙◌, ◌⊎◌, ==_iff, String, Bool, false, not,
  ◌&&◌, some, List, [], ◌∷◌, arith, leb, ◌==◌, inl, inr, Bool-cases, Option-cases, u64_max, length,
  get_elem?,
}
use imagegen_bridge.Runtime.Queue.{
  Caller, Waiting, Atomic, loads, attempts, releases, attempt, release_queue, set_at,
  capacity_error, load, round, drop_held, atomic_step, interleave,
}

abbrev pub holds : Caller → ℕ
holds Caller.holding = 1
holds _ = 0

-- The reservations that are out.
abbrev pub reservations : List Caller → ℕ
reservations [] = 0
reservations (c ∷ cs) = holds c + reservations cs

-- The counter is the number of reservations that are out, and within the capacity if there is one.
pub record IsCounted (w : Waiting) : Type 0 where
  pub exact : w.gate.queued ≡ reservations w.callers
  pub bounded : (w.gate.max_queued == u64_max) ≡ false → w.gate.queued ≤ w.gate.max_queued
  pub few : length w.callers ≤ u64_max

reservations-set_at :
    (cs : List Caller) (i : ℕ) (c c' : Caller)
    → get_elem? cs i ≡ some c
    → reservations (set_at cs i c') + holds c ≡ reservations cs + holds c'
reservations-set_at [] i c c' h = cc
reservations-set_at (x ∷ xs) zero c c' h =
    let same : x ≡ c = cc in
    subst (λ y. holds c' + reservations xs + holds y ≡ holds x + reservations xs + holds c') same
      (omega arith)
reservations-set_at (x ∷ xs) (suc i) c c' h = omega (arith, reservations-set_at xs i c c' h)

length-set_at : (cs : List Caller) (i : ℕ) (c : Caller) → length (set_at cs i c) ≡ length cs
length-set_at [] i c = refl
length-set_at (x ∷ xs) zero c = refl
length-set_at (x ∷ xs) (suc i) c = omega (arith, length-set_at xs i c)

reservations-le-length : (cs : List Caller) → reservations cs ≤ length cs
reservations-le-length [] = omega arith
reservations-le-length (Caller.idle ∷ cs) = omega (arith, reservations-le-length cs)
reservations-le-length (Caller.trying n ∷ cs) = omega (arith, reservations-le-length cs)
reservations-le-length (Caller.holding ∷ cs) = omega (arith, reservations-le-length cs)
reservations-le-length (Caller.refused e ∷ cs) = omega (arith, reservations-le-length cs)

wrapped_pred :
    (q r : ℕ) → r + 1 ≡ q → q ≤ u64_max → (q + 18446744073709551615) % 18446744073709551616 ≡ r
wrapped_pred q r e h = omega arith

wrapped_suc : (q : ℕ) → q < u64_max → (q + 1) % 18446744073709551616 ≡ q + 1
wrapped_suc q h = omega arith

load-IsCounted :
    (w : Waiting) (i : ℕ) (c : Caller)
    → get_elem? w.callers i ≡ some c
    → IsCounted w
    → IsCounted (load w i c)
unfolding load
load-IsCounted w i Caller.idle h v = record {
  exact =
      omega (
        arith,
        v.exact,
        reservations-set_at w.callers i Caller.idle (Caller.trying w.gate.queued) h,
      );
  bounded = v.bounded;
  few = omega (arith, v.few, length-set_at w.callers i (Caller.trying w.gate.queued));
}
load-IsCounted w i (Caller.trying n) h v = v
load-IsCounted w i Caller.holding h v = v
load-IsCounted w i (Caller.refused e) h v = v

drop_held-IsCounted :
    (w : Waiting) (i : ℕ) (c : Caller)
    → get_elem? w.callers i ≡ some c
    → IsCounted w
    → IsCounted (drop_held w i c)
unfolding drop_held release_queue
drop_held-IsCounted w i Caller.holding h v =
    let after = set_at w.callers i Caller.idle in
    let total : reservations after + 1 ≡ w.gate.queued =
      omega (arith, v.exact, reservations-set_at w.callers i Caller.holding Caller.idle h) in
    let pred =
      wrapped_pred w.gate.queued (reservations after) total
        (omega (arith, v.exact, v.few, reservations-le-length w.callers)) in
    record {
      exact = pred;
      bounded = λ limited. omega (arith, pred, total, v.bounded limited);
      few = omega (arith, v.few, length-set_at w.callers i Caller.idle);
    }
drop_held-IsCounted w i (Caller.trying n) h v = v
drop_held-IsCounted w i Caller.idle h v = v
drop_held-IsCounted w i (Caller.refused e) h v = v

moved-IsCounted :
    (w : Waiting) (i : ℕ) (c c' : Caller)
    → get_elem? w.callers i ≡ some c
    → holds c ≡ holds c'
    → IsCounted w
    → IsCounted (record w { callers = set_at w.callers i c' })
moved-IsCounted w i c c' h same v = record {
  exact = omega (arith, v.exact, same, reservations-set_at w.callers i c c' h);
  bounded = v.bounded;
  few = omega (arith, v.few, length-set_at w.callers i c');
}

below_limit :
    (current limit : ℕ)
    → (not (limit == u64_max) && leb limit current) ≡ false
    → (limit == u64_max) ≡ false
    → current + 1 ≤ limit
below_limit current limit room limited = ground arith

-- The round that takes a place in the queue.
taken-IsCounted :
    (w : Waiting) (i current : ℕ)
    → get_elem? w.callers i ≡ some (Caller.trying current)
    → (not (w.gate.max_queued == u64_max) && leb w.gate.max_queued current) ≡ false
    → w.gate.queued ≡ current
    → IsCounted w
    → IsCounted (record {
      gate = record w.gate { queued = (current + 1) % 18446744073709551616 };
      callers = set_at w.callers i Caller.holding;
    })
taken-IsCounted w i current h room same v =
    let total = reservations-set_at w.callers i (Caller.trying current) Caller.holding h in
    let size = length-set_at w.callers i Caller.holding in
    let next = wrapped_suc current (
      omega (
        arith,
        v.exact,
        v.few,
        total,
        size,
        same,
        reservations-le-length (set_at w.callers i Caller.holding),
      )) in
    record {
      exact = omega (arith, next, total, same, v.exact);
      bounded = λ limited. omega (arith, next, below_limit current w.gate.max_queued room limited);
      few = omega (arith, v.few, size);
    }

round-IsCounted :
    (w : Waiting) (i : ℕ) (spurious : Bool) (c : Caller)
    → get_elem? w.callers i ≡ some c
    → IsCounted w
    → IsCounted (round w i spurious c)
unfolding round attempt
round-IsCounted w i spurious Caller.idle h v = v
round-IsCounted w i spurious Caller.holding h v = v
round-IsCounted w i spurious (Caller.refused e) h v = v
round-IsCounted w i spurious (Caller.trying current) h v =
    elim (Bool-cases (not (w.gate.max_queued == u64_max) && leb w.gate.max_queued current)) [
      | inl full ↦
          let e : attempt w.gate current spurious
              ≡ (w.gate, Caller.refused (capacity_error w.gate.label)) =
            ground arith in
          subst (λ r. IsCounted (record { gate = r.0; callers = set_at w.callers i r.1 })) (sym e)
            (moved-IsCounted w i (Caller.trying current)
              (Caller.refused (capacity_error w.gate.label)) h refl v)
      | inr room ↦ elim (Bool-cases (w.gate.queued == current && not spurious)) [
        | inl same ↦
            let e : attempt w.gate current spurious ≡ (
              record w.gate { queued = (current + 1) % 18446744073709551616 },
              Caller.holding,
            ) =
              ground arith in
            let read : w.gate.queued ≡ current = ground arith in
            subst (λ r. IsCounted (record { gate = r.0; callers = set_at w.callers i r.1 })) (sym e)
              (taken-IsCounted w i current h room read v)
        | inr other ↦
            let e : attempt w.gate current spurious ≡ (w.gate, Caller.trying w.gate.queued) =
              ground arith in
            subst (λ r. IsCounted (record { gate = r.0; callers = set_at w.callers i r.1 })) (sym e)
              (moved-IsCounted w i (Caller.trying current) (Caller.trying w.gate.queued) h refl v)
      ]
    ]

atomic_step-IsCounted : (w : Waiting) (a : Atomic) → IsCounted w → IsCounted (atomic_step w a)
unfolding atomic_step
atomic_step-IsCounted w (loads i) v = elim (Option-cases (get_elem? w.callers i)) [
  | inl gone ↦ rw (gone, atomic_step) v
  | inr (c, h) ↦ rw (h, atomic_step) (load-IsCounted w i c h v)
]
atomic_step-IsCounted w (attempts i spurious) v = elim (Option-cases (get_elem? w.callers i)) [
  | inl gone ↦ rw (gone, atomic_step) v
  | inr (c, h) ↦ rw (h, atomic_step) (round-IsCounted w i spurious c h v)
]
atomic_step-IsCounted w (releases i) v = elim (Option-cases (get_elem? w.callers i)) [
  | inl gone ↦ rw (gone, atomic_step) v
  | inr (c, h) ↦ rw (h, atomic_step) (drop_held-IsCounted w i c h v)
]

interleave-IsCounted :
    (w : Waiting) (steps : List Atomic) → IsCounted w → IsCounted (interleave w steps)
unfolding interleave
interleave-IsCounted w [] v = v
interleave-IsCounted w (a ∷ rest) v =
    interleave-IsCounted (atomic_step w a) rest (atomic_step-IsCounted w a v)

-- Callers that have not begun.
abbrev pub idlers : ℕ → List Caller
idlers zero = []
idlers (suc n) = Caller.idle ∷ idlers n

idlers-reservations : (n : ℕ) → (reservations (idlers n) ≡ 0) × (length (idlers n) ≡ n)
idlers-reservations zero = (refl, refl)
idlers-reservations (suc n) =
    let (none_held, size) = idlers-reservations n in (omega (arith, none_held), omega (arith, size))

abbrev pub capacity : Waiting → ℕ
capacity w = w.gate.max_queued

round-capacity :
    (w : Waiting) (i : ℕ) (spurious : Bool) (c : Caller)
    → capacity (round w i spurious c) ≡ capacity w
unfolding round attempt
round-capacity w i spurious (Caller.trying current) = ground arith
round-capacity w i spurious Caller.idle = refl
round-capacity w i spurious Caller.holding = refl
round-capacity w i spurious (Caller.refused e) = refl

atomic_step-capacity : (w : Waiting) (a : Atomic) → capacity (atomic_step w a) ≡ capacity w
unfolding atomic_step load drop_held release_queue
atomic_step-capacity w (loads i) = ground arith
atomic_step-capacity w (attempts i spurious) = ground (arith, round-capacity w i spurious)
atomic_step-capacity w (releases i) = ground arith

interleave-capacity :
    (w : Waiting) (steps : List Atomic) → capacity (interleave w steps) ≡ capacity w
unfolding interleave
interleave-capacity w [] = refl
interleave-capacity w (a ∷ rest) =
    interleave-capacity (atomic_step w a) rest ∙ atomic_step-capacity w a

-- A gate with an empty queue and callers that have not begun.
abbrev pub fresh_gate : ℕ → String → ℕ → Waiting
fresh_gate max_queued label n = record {
  gate = record { queued = 0; max_queued = max_queued; label = label };
  callers = idlers n;
}

fresh_gate-IsCounted :
    (max_queued : ℕ) (label : String) (n : ℕ)
    → n ≤ u64_max
    → IsCounted (fresh_gate max_queued label n)
fresh_gate-IsCounted max_queued label n few = record {
  exact = omega (arith, (idlers-reservations n).0);
  bounded = λ limited. omega arith;
  few = omega (arith, few, (idlers-reservations n).1);
}

within :
    (queued limit limit' : ℕ)
    → limit' ≡ limit
    → ((limit' == u64_max) ≡ false → queued ≤ limit')
    → (limit ≡ u64_max) ⊎ (queued ≤ limit)
within queued limit limit' same h = elim (Bool-cases (limit' == u64_max)) [
  | inl unlimited ↦ inl (ground (arith, ==_iff limit' u64_max))
  | inr limited ↦ inr (omega (arith, same, h limited))
]

-- Whatever way the atomic operations of the callers of a new gate interleave, with spurious
-- failures of the exchange, the counter of the queue is the number of reservations that are out,
-- and it is at most `max_queued`, unless that is the largest 64-bit number, which means no bound.
pub interleave-reservations :
    (max_queued : ℕ) (label : String) (n : ℕ) (steps : List Atomic)
    → n ≤ u64_max
    → let w = interleave (fresh_gate max_queued label n) steps in
      (w.gate.queued ≡ reservations w.callers)
      × ((max_queued ≡ u64_max) ⊎ (w.gate.queued ≤ max_queued))
interleave-reservations max_queued label n steps few =
    let v =
      interleave-IsCounted (fresh_gate max_queued label n) steps
        (fresh_gate-IsCounted max_queued label n few) in
    (
      v.exact,
      within _ max_queued _ (interleave-capacity (fresh_gate max_queued label n) steps) v.bounded,
    )
