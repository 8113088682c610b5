-- ===== src/Runtime/Queue.antt =====
-- The bounded queue of crates/runtime/src/admission.rs: `reserve_queue` and the drop of a reservation,
-- by any number of callers whose atomic operations interleave. `usize` has 64 bits. The semaphore of
-- the gate is not here.
pub mod Capacity
use imagegen_bridge.Prelude.{
  ℕ, zero, suc, ◌+◌, ◌%◌, String, Bool, true, false, ◌&&◌, not, Option, none, some, List, [], ◌∷◌,
  leb, ◌==◌, if◌then◌else◌, u64_max, get_elem?,
}
use imagegen_bridge.Core.Error.{
  ErrorCode, Json, BridgeError, bridge_error, with_retryable, with_detail,
}

-- The queue's part of `AdmissionGate`.
pub record AdmissionGate : Type 0 where
  pub queued : ℕ
  pub max_queued : ℕ
  pub label : String

-- Where a caller stands: before `reserve_queue`, in its loop with the `current` that it read, with a
-- `QueueReservation`, or refused.
pub data Caller : Type 0 where
  idle : Caller
  trying : ℕ → Caller
  holding : Caller
  refused : BridgeError → Caller

unfoldable pub capacity_error : String → BridgeError
capacity_error label =
    with_detail "limit" (Json.text label) (
      with_retryable true (bridge_error ErrorCode.overloaded "runtime queue capacity is exhausted"))

-- One round of the loop. `compare_exchange_weak` may fail although the values agree, which `spurious`
-- says.
unfoldable pub attempt : AdmissionGate → ℕ → Bool → AdmissionGate × Caller
unfolding capacity_error
attempt g current spurious =
    if not (g.max_queued == u64_max) && leb g.max_queued current
    then (g, Caller.refused (capacity_error g.label))
    else if g.queued == current && not spurious
    then (record g { queued = (current + 1) % 18446744073709551616 }, Caller.holding)
    else (g, Caller.trying g.queued)

-- `fetch_sub(1)` of a dropped reservation.
unfoldable pub release_queue : AdmissionGate → AdmissionGate
release_queue g = record g { queued = (g.queued + 18446744073709551615) % 18446744073709551616 }

-- The gate with its callers.
pub record Waiting : Type 0 where
  pub gate : AdmissionGate
  pub callers : List Caller

abbrev pub set_at : List Caller → ℕ → Caller → List Caller
set_at [] i c = []
set_at (x ∷ xs) zero c = c ∷ xs
set_at (x ∷ xs) (suc i) c = x ∷ set_at xs i c

-- An atomic operation of the caller at a position: the first load of `reserve_queue`, a round of its
-- loop, or the drop of its reservation.
pub data Atomic : Type 0 where
  loads : ℕ → Atomic
  attempts : ℕ → Bool → Atomic
  releases : ℕ → Atomic

unfoldable pub load : Waiting → ℕ → Caller → Waiting
load w i Caller.idle = record w { callers = set_at w.callers i (Caller.trying w.gate.queued) }
load w i _ = w

unfoldable pub round : Waiting → ℕ → Bool → Caller → Waiting
unfolding attempt
round w i spurious (Caller.trying current) =
    let (g, c) = attempt w.gate current spurious in
    record { gate = g; callers = set_at w.callers i c }
round w i spurious _ = w

unfoldable pub drop_held : Waiting → ℕ → Caller → Waiting
unfolding release_queue
drop_held w i Caller.holding = record {
  gate = release_queue w.gate;
  callers = set_at w.callers i Caller.idle;
}
drop_held w i _ = w

unfoldable pub atomic_step : Waiting → Atomic → Waiting
unfolding load round drop_held
atomic_step w (loads i) = elim (get_elem? w.callers i) [ none ↦ w | some c ↦ load w i c ]
atomic_step w (attempts i spurious) = elim (get_elem? w.callers i) [
  | none ↦ w
  | some c ↦ round w i spurious c
]
atomic_step w (releases i) = elim (get_elem? w.callers i) [ none ↦ w | some c ↦ drop_held w i c ]

unfoldable pub interleave : Waiting → List Atomic → Waiting
interleave w [] = w
interleave w (a ∷ rest) = interleave (atomic_step w a) rest
