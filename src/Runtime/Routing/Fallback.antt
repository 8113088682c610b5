-- ===== src/Runtime/Routing/Fallback.antt =====
-- Which routes crates/runtime/src/orchestrator.rs tries, and what comes of them.
use imagegen_bridge.Prelude.{
  ℕ, suc, ◌+◌, String, ◌≡◌, ◌⊎◌, refl, sym, ap, ◌∙◌, subst, true, false, List, [], ◌∷◌, ◌++◌, inl,
  inr, arith, length, Bool-cases,
}
use mathlib.Core.List.{append-nil, append_assoc}
use imagegen_bridge.Core.Error.{
  Json, ProviderAttempt, BridgeError, with_detail, Result, Result-cases, ok, err,
}
use imagegen_bridge.Core.Parameters.{FallbackPolicy}
use imagegen_bridge.Core.Request.{ImageRequest, ProviderRoute}
use imagegen_bridge.Core.Response.{ImageResponse}
use imagegen_bridge.Runtime.Routing.Policy.{should_fallback}
use imagegen_bridge.Runtime.Routing.Delivery.{Delivered, deliver-Delivered}
use imagegen_bridge.Runtime.Routing.{
  RouteExecution, Environment, failed_attempt, trace, deliver, attempt_routes, routes, check_unique,
  primary_provider, execute_leader,
}

-- Routes that failed with errors after which the next one is tried.
abbrev pub PassedOver : Environment → FallbackPolicy → ℕ → List ProviderRoute → Type 0
PassedOver env policy index [] = Unit
PassedOver env policy index (route ∷ rest) =
    ((e : BridgeError) × ((env.execute_route index route).result ≡ err e)
      × (should_fallback e policy ≡ true))
    × PassedOver env policy (suc index) rest

-- The attempts at routes that failed.
abbrev pub trail : Environment → ℕ → List ProviderRoute → List ProviderAttempt
trail env index [] = []
trail env index (route ∷ rest) = elim (env.execute_route index route).result [
  | ok execution ↦ trail env (suc index) rest
  | err e ↦
      failed_attempt route e (env.execute_route index route).duration_ms
      ∷ trail env (suc index) rest
]

-- The end of the loop at a route: its response, or its error with the attempts.
abbrev pub Ending :
    Environment
    → ImageRequest
    → String
    → ℕ
    → List ProviderAttempt
    → ProviderRoute
    → List ProviderRoute
    → Result ImageResponse
    → Type 0
Ending env request primary position trace final untried result =
    ((execution : RouteExecution) × ((env.execute_route position final).result ≡ ok execution)
      × (result
          ≡ deliver env request primary position trace
              (env.execute_route position final).duration_ms execution)
      × Delivered env request primary position trace (env.execute_route position final).duration_ms
          execution result)
    ⊎ ((e : BridgeError) × ((env.execute_route position final).result ≡ err e)
        × ((untried ≡ []) ⊎ (should_fallback e request.routing.fallback_policy ≡ false))
        × (result
            ≡ err (
                with_detail "attempts"
                  (Json.attempts (
                    trace
                    ++ failed_attempt final e (env.execute_route position final).duration_ms ∷ []))
                  e)))

-- How the loop over routes ends: at a route that succeeds, or at one that fails for good.
pub record Routed (env : Environment) (request : ImageRequest) (primary : String) (index : ℕ)
    (attempts : List ProviderAttempt) (tried : List ProviderRoute) (result : Result ImageResponse)
    : Type 0 where
  pub passed : List ProviderRoute
  pub final : ProviderRoute
  pub untried : List ProviderRoute
  pub position : ℕ
  pub trace : List ProviderAttempt
  pub split : tried ≡ passed ++ final ∷ untried
  pub located : position ≡ index + length passed
  pub traced : trace ≡ attempts ++ trail env index passed
  pub allowed : PassedOver env request.routing.fallback_policy index passed
  pub outcome : Ending env request primary position trace final untried result

module _ (env : Environment) (request : ImageRequest) (primary : String) where
  -- A loop that ends at its first route.
  ends_here :
      (index : ℕ) (attempts : List ProviderAttempt) (route : ProviderRoute)
      (rest : List ProviderRoute) (result : Result ImageResponse)
      → Ending env request primary index attempts route rest result
      → Routed env request primary index attempts (route ∷ rest) result
  ends_here index attempts route rest result ending = record {
    passed = [];
    final = route;
    untried = rest;
    position = index;
    trace = attempts;
    split = refl;
    located = omega arith;
    traced = sym (append-nil attempts);
    allowed = tt;
    outcome = ending;
  }

  -- A loop that ends at a route that succeeds.
  succeeds :
      (index : ℕ) (attempts : List ProviderAttempt) (route : ProviderRoute)
      (rest : List ProviderRoute) (result : Result ImageResponse) (execution : RouteExecution)
      → (env.execute_route index route).result ≡ ok execution
      → result
        ≡ deliver env request primary index attempts
            (env.execute_route index route).duration_ms
            execution
      → Ending env request primary index attempts route rest result
  succeeds index attempts route rest result execution e made =
      let duration_ms = (env.execute_route index route).duration_ms in
      inl (
        execution,
        e,
        made,
        subst (Delivered env request primary index attempts duration_ms execution) (sym made)
            (deliver-Delivered env request primary index attempts duration_ms execution),
      )

  trail-failed :
      (index : ℕ) (route : ProviderRoute) (x : BridgeError) (passed : List ProviderRoute)
      → (env.execute_route index route).result ≡ err x
      → failed_attempt route x (env.execute_route index route).duration_ms
          ∷ trail env (suc index) passed
        ≡ trail env index (route ∷ passed)
  trail-failed index route x passed e = rw (e, trail) refl

  attempt_routes-Routed :
      (index : ℕ) (attempts : List ProviderAttempt) (route : ProviderRoute)
      (rest : List ProviderRoute)
      → Routed env request primary index attempts
          (route ∷ rest)
          (attempt_routes env request primary index attempts (route ∷ rest))
  unfolding attempt_routes
  attempt_routes-Routed index attempts route [] =
      elim (Result-cases (env.execute_route index route).result) [
        | inl (execution, e) ↦
            ends_here index attempts route [] _
              (succeeds index attempts route [] _ execution e (rw (e, attempt_routes) refl))
        | inr (x, e) ↦
            ends_here index attempts route [] _ (inr (x, e, inl refl, rw (e, attempt_routes) refl))
      ]
  attempt_routes-Routed index attempts route (next ∷ rest) =
      elim (Result-cases (env.execute_route index route).result) [
        | inl (execution, e) ↦ ends_here index attempts route (next ∷ rest) _ (
            succeeds index attempts route (next ∷ rest) _ execution e (rw (e, attempt_routes) refl))
        | inr (x, e) ↦ elim (Bool-cases (should_fallback x request.routing.fallback_policy)) [
          | inr stop ↦
              ends_here index attempts route (next ∷ rest) _
                (inr (x, e, inr stop, rw (e, stop, attempt_routes) refl))
          | inl go_on ↦
              let failed = failed_attempt route x (env.execute_route index route).duration_ms in
              let r = attempt_routes-Routed (suc index) (attempts ++ failed ∷ []) next rest in
              let same : attempt_routes env request primary (suc index) (attempts ++ failed ∷ [])
                    (next ∷ rest)
                  ≡ attempt_routes env request primary index attempts (route ∷ next ∷ rest) =
                rw (e, go_on, attempt_routes) refl in
              record {
                passed = route ∷ r.passed;
                final = r.final;
                untried = r.untried;
                position = r.position;
                trace = r.trace;
                split = ap (λ rs. route ∷ rs) r.split;
                located = omega (arith, r.located);
                traced =
                    r.traced
                    ∙ append_assoc attempts (failed ∷ []) (trail env (suc index) r.passed)
                    ∙ ap (λ t. attempts ++ t) (trail-failed index route x r.passed e);
                allowed = ((x, e, go_on), r.allowed);
                outcome =
                    subst (Ending env request primary r.position r.trace r.final r.untried) same
                      r.outcome;
              }
        ]
      ]

-- The routes of a request without duplicates, the primary one and then the fallbacks, are tried in
-- order up to one that succeeds, or that fails with an error after which no other is tried, or that
-- is the last; each route before it failed with an error that allows a fallback. A success is
-- delivered with its images, with the failed attempts before it and its own where the request has
-- fallbacks, and with a note of the fallback where the route is not the primary one; a failure is
-- that route's error with all of the attempts as the detail `attempts`.
pub execute_leader-Routed :
    (env : Environment) (request : ImageRequest) (default_provider : String)
    → check_unique [] 0
        (routes (primary_provider default_provider request.routing.provider) request)
      ≡ ok tt
    → Routed env request
        (primary_provider default_provider request.routing.provider)
        0
        []
        (routes (primary_provider default_provider request.routing.provider) request)
        (execute_leader env default_provider request)
unfolding execute_leader routes
execute_leader-Routed env request default_provider unique =
    let primary = primary_provider default_provider request.routing.provider in
    let first : ProviderRoute = record { provider = primary; model = request.routing.model } in
    rw (unique, execute_leader)
      (attempt_routes-Routed env request primary 0 [] first request.routing.fallbacks)
