-- ===== src/Runtime/Circuit.antt =====
-- crates/runtime/src/circuit_breaker.rs. Each method holds the breaker's mutex for its whole body, so
-- an execution is a sequence of method calls. `Instant` and `Duration` are numbers of nanoseconds, the
-- clock's reading is an argument, and their sum does not overflow.
pub mod Permits
pub mod Invariant
pub mod Returns
pub mod Runs
pub mod Behaviour
pub mod RetryAfter
pub mod Rerouting
pub mod Serial
pub mod Recovery
use imagegen_bridge.Prelude.{
  ℕ, ◌+◌, ◌-◌, ◌/◌, String, Bool, true, false, ◌&&◌, ◌||◌, none, some, List, [], ◌∷◌, leb, ltb,
  ◌==◌, if◌then◌else◌, u64_max, min, saturating_add_u32, saturating_add_u64, saturating_sub,
  get_elem?, erase_idx,
}
use imagegen_bridge.Core.Error.{
  ErrorCode, Json, BridgeError, bridge_error, with_retryable, with_provider, with_detail, Result,
  ok, err,
}

pub record CircuitBreakerConfig : Type 0 where
  pub enabled : Bool
  pub failure_threshold : ℕ
  pub open_duration : ℕ
  pub half_open_max_calls : ℕ
  pub success_threshold : ℕ

-- CircuitBreakerConfig::default
abbrev pub default_config : CircuitBreakerConfig
default_config = record {
  enabled = true;
  failure_threshold = 5;
  open_duration = 180_000_000_000;
  half_open_max_calls = 1;
  success_threshold = 1;
}

pub data CircuitState : Type 0 where
  closed opened half_open : CircuitState

pub record CircuitBreakerSnapshot : Type 0 where
  pub state : CircuitState
  pub consecutive_failures : ℕ
  pub retry_after_ms : ℕ
  pub rejected_calls : ℕ
  pub transitions : ℕ

pub data Phase : Type 0 where
  closed : ℕ → Phase
  opened : ℕ → Phase
  half_open : ℕ → ℕ → Phase

pub record Inner : Type 0 where
  pub phase : Phase
  pub epoch : ℕ
  pub rejected_calls : ℕ
  pub transitions : ℕ

pub record CircuitBreaker : Type 0 where
  pub config : CircuitBreakerConfig
  pub inner : Inner

-- The permit `CircuitPermit` is its kind: the breaker is an argument of the methods.
pub data PermitKind : Type 0 where
  closed : ℕ → PermitKind
  half_open : ℕ → PermitKind
  disabled : PermitKind

pub data Outcome : Type 0 where
  healthy failed neutral : Outcome

-- CircuitBreaker::new
unfoldable pub new : CircuitBreakerConfig → Result CircuitBreaker
new config =
    if config.enabled
      && (config.failure_threshold == 0
          || config.open_duration == 0
          || config.half_open_max_calls == 0
          || config.success_threshold == 0)
    then err (
        bridge_error ErrorCode.configuration
          "enabled circuit-breaker limits must be greater than zero")
    else ok (record {
      config = config;
      inner = record { phase = Phase.closed 0; epoch = 0; rejected_calls = 0; transitions = 0 };
    })

unfoldable pub duration_ms : ℕ → ℕ
duration_ms value = min (value / 1_000_000) u64_max

pub open_error : String → ℕ → BridgeError
open_error provider retry_after_ms = with_detail "retry_after_ms" (Json.number retry_after_ms) (
    with_detail "circuit_state" (Json.text "open") (
      with_provider provider (
        with_retryable true
          (bridge_error ErrorCode.overloaded "provider circuit breaker is open"))))

-- A change of phase: the epoch and the transition counter go up together.
enter : Phase → Inner → Inner
enter phase i = record i {
  phase = phase;
  epoch = saturating_add_u64 i.epoch 1;
  transitions = saturating_add_u64 i.transitions 1;
}

reject : Inner → Inner
reject i = record i { rejected_calls = saturating_add_u64 i.rejected_calls 1 }

-- The first part of `acquire`: an open circuit whose delay has passed becomes half-open.
pub recover : ℕ → Inner → Inner
unfolding enter
recover now i = elim i.phase [
  | Phase.closed n ↦ i
  | Phase.opened until ↦ if leb until now then enter (Phase.half_open 0 0) i else i
  | Phase.half_open f s ↦ i
]

-- The `match` of `acquire`, on the phase after that.
pub admit : CircuitBreakerConfig → String → ℕ → Inner → Phase → Inner × Result PermitKind
unfolding reject
admit config provider now i (Phase.closed n) = (i, ok (PermitKind.closed i.epoch))
admit config provider now i (Phase.opened until) =
    (reject i, err (open_error provider (duration_ms (until - now))))
admit config provider now i (Phase.half_open in_flight successes) =
    if ltb in_flight config.half_open_max_calls
    then (
      record i { phase = Phase.half_open (saturating_add_u32 in_flight 1) successes },
      ok (PermitKind.half_open i.epoch),
    )
    else (
      reject i,
      err (
          with_detail "circuit_state" (Json.text "half_open")
            (open_error provider (duration_ms config.open_duration))),
    )

unfoldable pub acquire : CircuitBreaker → String → ℕ → CircuitBreaker × Result PermitKind
unfolding recover admit
acquire b provider now =
    let i = recover now b.inner in
    let (i', r) = admit b.config provider now i i.phase in
    if b.config.enabled then (record b { inner = i' }, r) else (b, ok PermitKind.disabled)

-- The `match` of `snapshot`: state, consecutive failures and remaining delay.
describe : CircuitBreakerConfig → ℕ → Phase → CircuitState × ℕ × ℕ
describe config now (Phase.closed n) = (CircuitState.closed, n, 0)
describe config now (Phase.opened until) =
    (CircuitState.opened, config.failure_threshold, duration_ms (until - now))
describe config now (Phase.half_open f s) = (CircuitState.half_open, config.failure_threshold, 0)

unfoldable pub snapshot : CircuitBreaker → ℕ → CircuitBreakerSnapshot
unfolding describe
snapshot b now = record {
  state = (describe b.config now b.inner.phase).0;
  consecutive_failures = (describe b.config now b.inner.phase).1;
  retry_after_ms = (describe b.config now b.inner.phase).2;
  rejected_calls = b.inner.rejected_calls;
  transitions = b.inner.transitions;
}

unfoldable pub counts_as_failure : ErrorCode → Bool
counts_as_failure ErrorCode.rate_limited = true
counts_as_failure ErrorCode.overloaded = true
counts_as_failure ErrorCode.timeout = true
counts_as_failure ErrorCode.upstream = true
counts_as_failure ErrorCode.protocol = true
counts_as_failure _ = false

unfoldable pub outcome_of : Result (Unit {0}) → Outcome
unfolding counts_as_failure
outcome_of (ok _) = Outcome.healthy
outcome_of (err e) = if counts_as_failure e.code then Outcome.failed else Outcome.neutral

-- The `match` of `complete`, on the phase, the permit's kind and the outcome, at the same epoch.
pub settle : CircuitBreakerConfig → ℕ → Inner → Phase → PermitKind → Outcome → Inner
unfolding enter
settle config now i (Phase.closed n) (PermitKind.closed _) Outcome.healthy = record i {
  phase = Phase.closed 0;
}
settle config now i (Phase.closed n) (PermitKind.closed _) Outcome.failed =
    if leb config.failure_threshold (saturating_add_u32 n 1)
    then enter (Phase.opened (now + config.open_duration)) i
    else record i { phase = Phase.closed (saturating_add_u32 n 1) }
settle config now i (Phase.half_open f s) (PermitKind.half_open _) Outcome.healthy =
    if leb config.success_threshold (saturating_add_u32 s 1) && saturating_sub f 1 == 0
    then enter (Phase.closed 0) i
    else record i { phase = Phase.half_open (saturating_sub f 1) (saturating_add_u32 s 1) }
settle config now i (Phase.half_open f s) (PermitKind.half_open _) Outcome.failed =
    enter (Phase.opened (now + config.open_duration)) i
settle config now i (Phase.half_open f s) (PermitKind.half_open _) Outcome.neutral =
    enter (Phase.opened (now + config.open_duration)) i
settle _ _ i _ _ _ = i

-- The epoch test of `complete`: a permit of an earlier epoch changes nothing.
pub settle_current : CircuitBreakerConfig → ℕ → Inner → PermitKind → Outcome → Inner
unfolding settle
settle_current config now i (PermitKind.closed epoch) o =
    if epoch == i.epoch then settle config now i i.phase (PermitKind.closed epoch) o else i
settle_current config now i (PermitKind.half_open epoch) o =
    if epoch == i.epoch then settle config now i i.phase (PermitKind.half_open epoch) o else i
settle_current config now i PermitKind.disabled o = i

unfoldable pub complete : CircuitBreaker → PermitKind → ℕ → Result (Unit {0}) → CircuitBreaker
unfolding settle_current
complete b kind now result = record b {
  inner = settle_current b.config now b.inner kind (outcome_of result);
}

-- `abandon`, which a permit dropped unfinished calls.
pub release : Inner → Phase → Inner
release i (Phase.half_open f s) = record i { phase = Phase.half_open (saturating_sub f 1) s }
release i _ = i

unfoldable pub abandon : CircuitBreaker → PermitKind → CircuitBreaker
unfolding release
abandon b (PermitKind.half_open epoch) =
    if epoch == b.inner.epoch then record b { inner = release b.inner b.inner.phase } else b
abandon b _ = b

-- The breaker with the permits that are in the hands of callers.
pub record System : Type 0 where
  pub breaker : CircuitBreaker
  pub permits : List PermitKind

-- A permit is named by its position; `finish` and the drop of a permit take it away.
pub data Call : Type 0 where
  acquires : String → ℕ → Call
  finishes : ℕ → ℕ → Result (Unit {0}) → Call
  drops : ℕ → Call

pub granted : Result PermitKind → List PermitKind → List PermitKind
granted (ok k) ks = k ∷ ks
granted (err e) ks = ks

unfoldable pub step : System → Call → System
unfolding granted
step s (acquires provider now) =
    let (b, r) = acquire s.breaker provider now in
    record { breaker = b; permits = granted r s.permits }
step s (finishes i now result) = elim (get_elem? s.permits i) [
  | none ↦ s
  | some k ↦ record { breaker = complete s.breaker k now result; permits = erase_idx s.permits i }
]
step s (drops i) = elim (get_elem? s.permits i) [
  | none ↦ s
  | some k ↦ record { breaker = abandon s.breaker k; permits = erase_idx s.permits i }
]

unfoldable pub run : System → List Call → System
run s [] = s
run s (c ∷ cs) = run (step s c) cs
