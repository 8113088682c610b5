-- ===== src/Runtime/Routing/Delivery.antt =====
-- What crates/runtime/src/orchestrator.rs makes of the response of a route that succeeded.
use imagegen_bridge.Prelude.{
  ap, if◌then◌else◌, ◌==◌, false, ℕ, zero, suc, ◌<◌, some, List-cases, String, ◌≡◌, ◌⊎◌, refl, List,
  [], ◌∷◌, ◌++◌, inl, inr, arith,
}
use imagegen_bridge.Core.Error.{Json, ProviderAttempt, Result}
use imagegen_bridge.Core.Request.{ImageRequest}
use imagegen_bridge.Core.Response.{ImageResponse}
use imagegen_bridge.Runtime.Routing.{
  RouteExecution, Environment, succeeded_attempt, note_fallback, trace, deliver,
}

-- The response of the route that succeeded, as the caller gets it: the images and the rest of the answer;
-- the attempts before and its own, where the request has fallbacks; and a note that it is not the primary
-- route's, unless it is.
pub record Delivered (env : Environment) (request : ImageRequest) (primary : String) (position : ℕ)
    (trace : List ProviderAttempt) (duration_ms : ℕ) (execution : RouteExecution)
    (result : Result ImageResponse) : Type 0 where
  pub response : ImageResponse
  pub attached : result ≡ env.attach_metadata request execution.effective_request response
  pub same_images : response.images ≡ execution.response.images
  pub all_attempts :
      ((request.routing.fallbacks ≡ []) × (response.attempts ≡ execution.response.attempts))
      ⊎ (response.attempts ≡ trace ++ succeeded_attempt execution.response duration_ms ∷ [])
  pub noted :
      ((position ≡ 0)
        × (response.warnings ≡ execution.response.warnings)
        × (response.normalizations ≡ execution.response.normalizations))
      ⊎ ((0 < position)
          × (response.warnings ≡ execution.response.warnings ++ "provider_fallback_used" ∷ [])
          × (response.normalizations
              ≡ record {
                field = "routing.provider";
                requested = some (Json.text primary);
                effective = some (Json.text execution.response.provider);
                reason = "provider_fallback";
              }
                ∷ execution.response.normalizations))

trace-attempts :
    (env : Environment) (request : ImageRequest) (attempts : List ProviderAttempt)
    (response : ImageResponse)
    → ((request.routing.fallbacks ≡ [])
        × ((trace env request attempts response).attempts ≡ response.attempts))
      ⊎ ((trace env request attempts response).attempts ≡ attempts)
unfolding trace
trace-attempts env request attempts response = elim (List-cases request.routing.fallbacks) [
  | inl none_left ↦ inl (none_left, rw (none_left, trace) refl)
  | inr (route, rest, e) ↦ inr (rw (e, trace) refl)
]

pub deliver-Delivered :
    (env : Environment) (request : ImageRequest) (primary : String) (position : ℕ)
    (attempts : List ProviderAttempt) (duration_ms : ℕ) (execution : RouteExecution)
    → Delivered env request primary position attempts duration_ms execution
        (deliver env request primary position attempts duration_ms execution)
unfolding deliver note_fallback trace
deliver-Delivered env request primary zero attempts duration_ms execution = record {
  response =
      trace env request (attempts ++ succeeded_attempt execution.response duration_ms ∷ [])
        execution.response;
  attached = refl;
  same_images = refl;
  all_attempts =
      trace-attempts env request (attempts ++ succeeded_attempt execution.response duration_ms ∷ [])
        execution.response;
  noted = inl (refl, refl, refl);
}
deliver-Delivered env request primary (suc n) attempts duration_ms execution = record {
  response =
      trace env request (attempts ++ succeeded_attempt execution.response duration_ms ∷ [])
        (note_fallback primary execution.response);
  attached =
      let later : (suc n == 0) ≡ false = ground arith in
      ap
        (λ first. env.attach_metadata request execution.effective_request (
          trace env request (attempts ++ succeeded_attempt execution.response duration_ms ∷ [])
            (if first then execution.response else note_fallback primary execution.response)))
        later;
  same_images = refl;
  all_attempts =
      trace-attempts env request (attempts ++ succeeded_attempt execution.response duration_ms ∷ [])
        (note_fallback primary execution.response);
  noted = inr (omega arith, refl, refl);
}
