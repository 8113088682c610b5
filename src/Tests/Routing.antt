-- ===== src/Tests/Routing.antt =====
-- Examples for the theorems on the routing of crates/runtime/src/orchestrator.rs.
use imagegen_bridge.Prelude.{
  ℕ, ◌≤◌, ◌⊎◌, zero, suc, String, ◌≡◌, refl, true, false, none, some, List, [], ◌∷◌, lookup,
}
use imagegen_bridge.Core.Error.{
  ErrorCode, BridgeError, bridge_error, with_detail, with_retryable, Result, ok, err,
}
use imagegen_bridge.Core.Parameters.{FallbackPolicy}
use imagegen_bridge.Core.Request.{
  ImageRequest, ProviderRoute, route_eq, contains_route, generate_request,
}
use imagegen_bridge.Core.Response.{ImageResponse}
use imagegen_bridge.Runtime.Circuit.{
  CircuitBreaker, Phase, open_error, duration_ms, acquire, default_config,
}
use imagegen_bridge.Runtime.Circuit.Rerouting.{acquire-fallback}
use imagegen_bridge.Runtime.Routing.Policy.{
  has_unknown_outcome, is_final, is_unavailable, should_fallback, after_interruption,
  unknown_outcome_error, timeout_error, Race, await_provider_execution,
}
use imagegen_bridge.Runtime.Routing.{
  Attempt, Environment, routes, check_unique, note_fallback, trace, deliver, attempt_routes,
  execute_leader,
}
use imagegen_bridge.Runtime.Routing.Fallback.{Routed, execute_leader-Routed}
use imagegen_bridge.Runtime.Routing.Unknown.{await_provider_execution-unknown}
use imagegen_bridge.Tests.Fanout.{canned}

-- A fox, by way of two providers.
abbrev fox : ImageRequest
fox =
    let request = generate_request "a fox" in
    record request {
      routing = record request.routing {
        fallbacks = record { provider = "codex-responses"; model = some "gpt" } ∷ [];
      };
    }

-- The first provider is overloaded, the second one answers.
abbrev try_route : ℕ → ProviderRoute → Attempt
try_route zero route = record {
  result = err (bridge_error ErrorCode.overloaded "busy");
  duration_ms = 3;
}
try_route (suc n) route = record {
  result = ok (record { response = canned 1; effective_request = fox });
  duration_ms = 70;
}

abbrev env : Environment
env = record {
  execute_route = try_route;
  attach_metadata = λ request effective response. ok response;
  global_queue_ms = 2;
  total_ms = 80;
}

unique : check_unique [] 0 (routes "codex-app-server" fox) ≡ ok tt
unfolding check_unique contains_route route_eq routes
unique = refl

execute_leader-Routed_example :
    Routed env fox "codex-app-server" 0 []
      (routes "codex-app-server" fox)
      (execute_leader env "codex-app-server" fox)
execute_leader-Routed_example = execute_leader-Routed env fox "codex-app-server" unique

abbrev warnings_of : Result ImageResponse → List String
warnings_of (ok response) = response.warnings
warnings_of (err e) = []

fell_back : warnings_of (execute_leader env "codex-app-server" fox) ≡ "provider_fallback_used" ∷ []
unfolding execute_leader check_unique contains_route route_eq routes attempt_routes should_fallback
    has_unknown_outcome is_final is_unavailable deliver note_fallback trace bridge_error lookup
fell_back = refl

abbrev lost : BridgeError
lost = unknown_outcome_error ErrorCode.timeout "request deadline elapsed during provider execution"

-- The deadline is at 50, and the execution begins at 20.
await_provider_execution-unknown_example :
    ((50 ≤ 20) × (lost ≡ timeout_error))
    ⊎ ((has_unknown_outcome lost ≡ true) × (should_fallback lost FallbackPolicy.on_error ≡ false))
unfolding await_provider_execution after_interruption unknown_outcome_error with_detail
    with_retryable bridge_error
await_provider_execution-unknown_example =
    await_provider_execution-unknown {T = ℕ} 50 20
      (Race.interrupted ErrorCode.timeout "request deadline elapsed during provider execution" none)
      lost FallbackPolicy.on_error refl refl

-- A breaker that is open.
abbrev tripped : CircuitBreaker
tripped = record {
  config = default_config;
  inner = record { phase = Phase.opened 25; epoch = 1; transitions = 1; rejected_calls = 0 };
}

acquire-fallback_example :
    should_fallback (open_error "p" (duration_ms 5)) FallbackPolicy.on_unavailable ≡ true
unfolding acquire
acquire-fallback_example =
    acquire-fallback tripped "p" 20 FallbackPolicy.on_unavailable (open_error "p" (duration_ms 5))
      refl
