-- ===== src/Runtime/Routing.antt =====
-- crates/runtime/src/orchestrator.rs: the routes of a request, one provider after the other. What
-- `execute_route` and `attach_metadata` come to, and the readings of the clock, are arguments.
pub mod Policy
pub mod Delivery
pub mod Fallback
pub mod Unknown
use imagegen_bridge.Prelude.{
  ℕ, zero, suc, ◌-◌, String, Bool, true, false, ◌&&◌, ◌||◌, not, ◌==◌, Option, none, some, List, [],
  ◌∷◌, ◌++◌, if◌then◌else◌, text_eq, option_text_eq, lookup, saturating_add_u64,
}
use Prim.Native.String.{◌++◌ as append}
use imagegen_bridge.Core.Error.{
  ErrorCode, Json, ProviderAttemptOutcome, ProviderAttempt, BridgeError, bridge_error,
  with_retryable, with_detail, Result, ok, err, ◌>>=◌,
}
use imagegen_bridge.Core.Parameters.{FallbackPolicy}
use imagegen_bridge.Core.Parameters.Decimal.{show_nat}
use imagegen_bridge.Core.Request.{ImageRequest, ProviderRoute, contains_route}
use imagegen_bridge.Core.Response.{Normalization, ImageResponse}
use imagegen_bridge.Runtime.Routing.Policy.{should_fallback}

-- The primary route, and the fallbacks.
unfoldable pub routes : String → ImageRequest → List ProviderRoute
routes primary request =
    record { provider = primary; model = request.routing.model } ∷ request.routing.fallbacks

abbrev model_json : Option String → Json
model_json none = Json.null
model_json (some model) = Json.text model

unfoldable pub duplicate_error : ℕ → ProviderRoute → BridgeError
duplicate_error index route = with_detail "model" (model_json route.model) (
    with_detail "provider" (Json.text route.provider) (
      with_detail "field"
        (Json.text (append "routing.fallbacks[" (append (show_nat (index - 1)) "]")))
        (bridge_error ErrorCode.invalid_request
          "provider routing contains a duplicate resolved route")))

-- The check of the routes, with those that have been seen.
unfoldable pub check_unique : List ProviderRoute → ℕ → List ProviderRoute → Result (Unit {0})
unfolding contains_route duplicate_error
check_unique seen index [] = ok tt
check_unique seen index (route ∷ rest) =
    if contains_route seen route
    then err (duplicate_error index route)
    else check_unique (route ∷ seen) (suc index) rest

pub record RouteExecution : Type 0 where
  pub response : ImageResponse
  pub effective_request : ImageRequest

-- The end of an attempt at a route, and how long it took.
pub record Attempt : Type 0 where
  pub result : Result RouteExecution
  pub duration_ms : ℕ

-- What the loop takes from the rest of the runtime.
pub record Environment : Type 0 where
  pub execute_route : ℕ → ProviderRoute → Attempt
  pub attach_metadata : ImageRequest → ImageRequest → ImageResponse → Result ImageResponse
  pub global_queue_ms : ℕ
  pub total_ms : ℕ

abbrev pub failed_attempt : ProviderRoute → BridgeError → ℕ → ProviderAttempt
failed_attempt route e duration_ms = record {
  provider = route.provider;
  model = route.model;
  outcome = ProviderAttemptOutcome.failed;
  error_code = some e.code;
  duration_ms = duration_ms;
}

abbrev pub succeeded_attempt : ImageResponse → ℕ → ProviderAttempt
succeeded_attempt response duration_ms = record {
  provider = response.provider;
  model = some response.model;
  outcome = ProviderAttemptOutcome.succeeded;
  error_code = none;
  duration_ms = duration_ms;
}

-- The response of a fallback route.
unfoldable pub note_fallback : String → ImageResponse → ImageResponse
note_fallback primary response = record response {
  normalizations =
      record {
        field = "routing.provider";
        requested = some (Json.text primary);
        effective = some (Json.text response.provider);
        reason = "provider_fallback";
      }
      ∷ response.normalizations;
  warnings = response.warnings ++ "provider_fallback_used" ∷ [];
}

-- The response with the trace of the attempts and the times.
unfoldable pub trace :
    Environment → ImageRequest → List ProviderAttempt → ImageResponse → ImageResponse
trace env request attempts response = record response {
  attempts = elim request.routing.fallbacks [ [] ↦ response.attempts | _ ∷ _ ↦ attempts ];
  timings = record response.timings {
    queue_ms = saturating_add_u64 response.timings.queue_ms env.global_queue_ms;
    total_ms = env.total_ms;
  };
}

-- A route that succeeded.
unfoldable pub deliver :
    Environment
    → ImageRequest
    → String
    → ℕ
    → List ProviderAttempt
    → ℕ
    → RouteExecution
    → Result ImageResponse
unfolding note_fallback trace
deliver env request primary index attempts duration_ms execution =
    let response = execution.response in
    let noted = if index == 0 then response else note_fallback primary response in
    env.attach_metadata request execution.effective_request
      (trace env request (attempts ++ succeeded_attempt response duration_ms ∷ []) noted)

-- The loop over the routes.
unfoldable pub attempt_routes :
    Environment
    → ImageRequest
    → String
    → ℕ
    → List ProviderAttempt
    → List ProviderRoute
    → Result ImageResponse
unfolding deliver should_fallback
attempt_routes env request primary index attempts [] = err (
    with_detail "attempts" (Json.attempts attempts)
      (bridge_error ErrorCode.configuration "provider routing produced no attempts"))
attempt_routes env request primary index attempts (route ∷ rest) =
    let attempt = env.execute_route index route in
    elim attempt.result [
      | ok execution ↦ deliver env request primary index attempts attempt.duration_ms execution
      | err e ↦
          let attempts' = attempts ++ failed_attempt route e attempt.duration_ms ∷ [] in
          let stop = err (with_detail "attempts" (Json.attempts attempts') e) in
          let next = attempt_routes env request primary (suc index) attempts' rest in
          elim rest [
            | [] ↦ stop
            | _ ∷ _ ↦ if should_fallback e request.routing.fallback_policy then next else stop
          ]
    ]

abbrev pub primary_provider : String → Option String → String
primary_provider default_provider none = default_provider
primary_provider default_provider (some provider) = provider

-- execute_leader, once the permit of the runtime has been acquired.
unfoldable pub execute_leader : Environment → String → ImageRequest → Result ImageResponse
unfolding routes check_unique attempt_routes
execute_leader env default_provider request =
    let primary = primary_provider default_provider request.routing.provider in
    check_unique [] 0 (routes primary request) >>= λ _.
    attempt_routes env request primary 0 [] (routes primary request)
