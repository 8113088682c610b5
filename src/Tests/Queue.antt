-- ===== src/Tests/Queue.antt =====
-- Interleavings of callers of the queue of crates/runtime/src/admission.rs.
use imagegen_bridge.Prelude.{◌≤◌, ◌≡◌, refl, ◌⊎◌, true, false, List, [], ◌∷◌, arith, u64_max}
use imagegen_bridge.Runtime.Queue.{
  Caller, Atomic, loads, attempts, releases, attempt, release_queue, capacity_error, load, round,
  drop_held, atomic_step, interleave,
}
use imagegen_bridge.Runtime.Queue.Capacity.{reservations, fresh_gate, interleave-reservations}

-- Two callers read an empty queue of one place; one takes it, the other fails its exchange, reads
-- again and is refused; a third fails spuriously and takes the place after its release.
abbrev contention : List Atomic
contention =
    loads 0
    ∷ loads 1
    ∷ loads 2
    ∷ attempts 0 false
    ∷ attempts 1 false
    ∷ attempts 1 false
    ∷ releases 0
    ∷ attempts 2 true
    ∷ attempts 2 false
    ∷ []

contention_result : interleave (fresh_gate 1 "global" 3) contention ≡ record {
  gate = record { queued = 1; max_queued = 1; label = "global" };
  callers = Caller.idle ∷ Caller.refused (capacity_error "global") ∷ Caller.holding ∷ [];
}
unfolding interleave atomic_step load round drop_held attempt release_queue
contention_result = refl

interleave-reservations_example :
    let w = interleave (fresh_gate 1 "global" 3) contention in
    (w.gate.queued ≡ reservations w.callers) × ((1 ≡ u64_max) ⊎ (w.gate.queued ≤ 1))
interleave-reservations_example = interleave-reservations 1 "global" 3 contention (omega arith)
