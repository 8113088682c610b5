-- ===== src/Tests/Breaker.antt =====
-- The tests of crates/runtime/src/circuit_breaker.rs, and examples for the theorems on it.
use imagegen_bridge.Prelude.{◌≡◌, refl, true, false, List, [], ◌∷◌, arith, ◌↔◌, ◌⊎◌, ◌+◌, ◌*◌, ◌≤◌}
use imagegen_bridge.Core.Error.{ErrorCode, bridge_error, Result, ok, err}
use imagegen_bridge.Runtime.Circuit.{
  CircuitBreakerConfig, CircuitBreaker, CircuitState, Phase, PermitKind, Call, acquires, finishes,
  drops, acquire, complete, abandon, new, run, snapshot, step, counts_as_failure, outcome_of,
  duration_ms,
}
use imagegen_bridge.Runtime.Circuit.Invariant.{IsUsable}
use imagegen_bridge.Runtime.Circuit.Runs.{IsWord, IsSound, fresh, initial, run-new-IsSound}
use imagegen_bridge.Runtime.Circuit.RetryAfter.{Tells, open_error-Tells, acquire-retry_after}
use imagegen_bridge.Runtime.Circuit.Behaviour.{
  Admits, IsRefusal, is_ok, acquire-Admits, acquire_refused, idle_breaker_admits,
}
use imagegen_bridge.Runtime.Circuit.Serial.{one_by_one, one_by_one-scan, alone}
use imagegen_bridge.Runtime.Circuit.Recovery.{one_by_one-scan_probes}

-- Two failures open it for twenty units of time, two probes at a time, two successes to close.
abbrev config : CircuitBreakerConfig
config = record {
  enabled = true;
  failure_threshold = 2;
  open_duration = 20;
  half_open_max_calls = 2;
  success_threshold = 2;
}

config-IsWord : IsWord config
config-IsWord = record { failures = omega arith; calls = omega arith; successes = omega arith }

config-IsUsable : IsUsable config
config-IsUsable = ground arith

abbrev success : Result (Unit {0})
success = ok tt

abbrev failure : Result (Unit {0})
failure = err (bridge_error ErrorCode.timeout "slow")

abbrev misuse : Result (Unit {0})
misuse = err (bridge_error ErrorCode.invalid_request "bad")

-- Two overlapping failures open the circuit; a late success of the first epoch; two probes, a refused
-- one, a dropped one and one that succeeds.
abbrev past_calls : List Call
past_calls =
    acquires "p" 0
    ∷ acquires "p" 0
    ∷ acquires "p" 1
    ∷ finishes 0 2 failure
    ∷ finishes 0 2 failure
    ∷ finishes 0 3 success
    ∷ acquires "p" 4
    ∷ acquires "p" 30
    ∷ acquires "p" 30
    ∷ acquires "p" 30
    ∷ drops 0
    ∷ finishes 0 31 success
    ∷ []

history_result : run (fresh (initial config)) past_calls ≡ record {
  breaker = record {
    config = config;
    inner = record { phase = Phase.half_open 0 1; epoch = 2; rejected_calls = 2; transitions = 2 };
  };
  permits = [];
}
unfolding run step acquire complete abandon outcome_of bridge_error
history_result = refl

new_zero : is_ok (new (record config { success_threshold = 0 })) ≡ false
unfolding new
new_zero = refl

-- A breaker that is turned off hands out permits and keeps no count.
disabled_acquire :
    acquire (initial (record config { enabled = false })) "p" 7
    ≡ (initial (record config { enabled = false }), ok PermitKind.disabled)
unfolding acquire
disabled_acquire = refl

duration_ms_rounds : duration_ms 1_999_999 ≡ 1
unfolding duration_ms
duration_ms_rounds = refl

cancellation_counts : counts_as_failure ErrorCode.cancelled ≡ false
unfolding counts_as_failure
cancellation_counts = refl

run-new-IsSound_example : IsSound config (run (fresh (initial config)) past_calls)
unfolding new
run-new-IsSound_example =
    run-new-IsSound config (initial config) past_calls refl refl config-IsWord (omega arith)

one_by_one-scan_example :
    (run
      (fresh (initial config))
      (one_by_one "p" 5 (failure ∷ success ∷ failure ∷ misuse ∷ failure ∷ []))).breaker.inner.phase
    ≡ Phase.opened 25
unfolding new outcome_of bridge_error
one_by_one-scan_example =
    one_by_one-scan config (initial config) "p" 5
      (failure ∷ success ∷ failure ∷ misuse ∷ failure ∷ []) refl refl config-IsWord

one_by_one-scan_probes_example :
    (run
      (alone config (Phase.opened 25) 1 0 1)
      (one_by_one "p" 25 (success ∷ success ∷ failure ∷ []))).breaker.inner.phase
    ≡ Phase.closed 1
unfolding outcome_of bridge_error
one_by_one-scan_probes_example =
    one_by_one-scan_probes config config-IsUsable "p" 25 1 0 1 25 success (success ∷ failure ∷ [])
      (omega arith)

abbrev tripped : CircuitBreaker
tripped = (alone config (Phase.opened 25) 1 0 1).breaker

acquire-Admits_example :
    (is_ok (acquire tripped "p" 30).1 ≡ true) ↔ Admits config 30 (Phase.opened 25)
acquire-Admits_example = acquire-Admits tripped "p" 30 refl

acquire_refused_example :
    IsRefusal "p" (acquire tripped "p" 20).1
    × ((acquire tripped "p" 20).0.inner ≡ record tripped.inner { rejected_calls = 1 })
unfolding acquire
acquire_refused_example = acquire_refused tripped "p" 20 (omega arith) refl

-- A breaker that is open for another 5.5 milliseconds tells its caller 5.
abbrev waiting : CircuitBreaker
waiting = record tripped { inner = record tripped.inner { phase = Phase.opened 5_500_020 } }

told_five : Tells "open" 5 (acquire waiting "p" 20).1
unfolding acquire duration_ms
told_five = open_error-Tells "p" 5

acquire-retry_after_example :
    ((is_ok (acquire (acquire waiting "p" 20).0 "p" 5_000_020).1 ≡ false)
      ⊎ (20 + 5 * 1_000_000 ≤ 5_000_020))
    × (is_ok (acquire (acquire waiting "p" 20).0 "p" 6_000_021).1 ≡ true)
    × ((snapshot waiting 20).state ≡ CircuitState.opened)
    × ((snapshot waiting 20).retry_after_ms ≡ 5)
acquire-retry_after_example =
    acquire-retry_after waiting "p" 20 5 5_000_020 1 (omega arith) told_five (omega arith)

-- A caller that waits for just the delay it is told may be refused once more.
refused_again : is_ok (acquire (acquire waiting "p" 20).0 "p" 5_000_020).1 ≡ false
unfolding acquire
refused_again = refl

idle_breaker_admits_example :
    is_ok (acquire (run (fresh (initial config)) past_calls).breaker "p" 40).1 ≡ true
unfolding new run step acquire complete abandon outcome_of bridge_error
idle_breaker_admits_example =
    idle_breaker_admits config (initial config) past_calls "p" 40 refl refl config-IsWord
      (omega arith) refl (omega arith)
