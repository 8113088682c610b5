-- ===== src/Runtime/Fanout/Aggregate.antt =====
-- `aggregate` of crates/runtime/src/fanout/mod.rs: the results of the calls, joined into one response.
use imagegen_bridge.Prelude.{
  ℕ, zero, suc, ◌==◌, String, Bool, true, false, ◌&&◌, not, Option, none, some, List, [], ◌∷◌, ◌++◌,
  map, if◌then◌else◌, set_insert, wrapping_add_u8, sort_by_key,
}
use imagegen_bridge.Core.Error.{
  ErrorCode, Json, BridgeError, bridge_error, with_detail, Result, ok, err, ◌>>=◌, ◌>>◌,
}
use imagegen_bridge.Core.Parameters.{MultiImageFailurePolicy, BatchExecution}
use imagegen_bridge.Core.Request.{ImageRequest}
use imagegen_bridge.Core.Response.{GeneratedImage, ImageFailure, ImageResponse}
use imagegen_bridge.Runtime.Fanout.Chunks.{ChunkResult}
use imagegen_bridge.Runtime.Fanout.Merge.{
  same_identity, usage_of, merge_sessions, first_revised_prompt, all_images, all_failures,
  all_warnings,
}

-- The readings of the clock: the seconds since 1970, and the two of the time that has passed.
pub record Readings : Type 0 where
  pub created : ℕ
  pub provider_ms : ℕ
  pub total_ms : ℕ

-- `offset..offset + count`
unfoldable pub span : ℕ → ℕ → List ℕ
span offset zero = []
span offset (suc count) = offset ∷ span (suc offset) count

-- Vec::eq
unfoldable pub numbers_eq : List ℕ → List ℕ → Bool
numbers_eq [] [] = true
numbers_eq (x ∷ xs) (y ∷ ys) = x == y && numbers_eq xs ys
numbers_eq _ _ = false

-- The indices of the images and failures of a response.
abbrev pub output_indices : ImageResponse → List ℕ
output_indices response =
    map (λ image. image.index) response.images ++ map (λ failure. failure.index) response.failures

unfoldable pub validate_chunk_indices : ImageResponse → ℕ → ℕ → Result (Unit {0})
validate_chunk_indices response offset count =
    if numbers_eq (sort_by_key (λ i. i) (output_indices response)) (span 0 count)
    then ok tt
    else err (
        with_detail "output_offset" (Json.number offset)
          (bridge_error ErrorCode.protocol "fan-out subrequest returned an invalid output set"))

unfoldable pub get_or_insert : Option ℕ → ℕ → Option ℕ
get_or_insert none n = some n
get_or_insert (some m) n = some m

abbrev pub shift_image : ℕ → ℕ → GeneratedImage → GeneratedImage
shift_image offset elapsed_ms image = record image {
  index = wrapping_add_u8 image.index offset;
  generation_ms = get_or_insert image.generation_ms elapsed_ms;
}

abbrev pub shift_failure : ℕ → ImageFailure → ImageFailure
shift_failure offset failure = record failure { index = wrapping_add_u8 failure.index offset }

-- A response with the indices of the whole batch.
abbrev pub shift_response : ℕ → ℕ → ImageResponse → ImageResponse
shift_response offset elapsed_ms response = record response {
  images = map (shift_image offset elapsed_ms) response.images;
  failures = map (shift_failure offset) response.failures;
}

abbrev pub output_failure : BridgeError → ℕ → ℕ → ImageFailure
output_failure e elapsed_ms index = record {
  index = index;
  error = with_detail "output_index" (Json.number index) e;
  generation_ms = elapsed_ms;
}

pub record Collected : Type 0 where
  pub successful : List ImageResponse
  pub failures : List ImageFailure

-- What one call adds to the responses and failures.
unfoldable pub collect_one : ChunkResult → Result Collected
unfolding validate_chunk_indices
collect_one r = elim r.result [
  | ok response ↦
      validate_chunk_indices response r.offset r.count
      >> ok (record {
        successful = shift_response r.offset r.elapsed_ms response ∷ [];
        failures = [];
      })
  | err e ↦ ok (record {
    successful = [];
    failures = map (output_failure e r.elapsed_ms) (span r.offset r.count);
  })
]

abbrev pub join_collected : Collected → Collected → Collected
join_collected a b = record {
  successful = a.successful ++ b.successful;
  failures = a.failures ++ b.failures;
}

-- The loop over the results.
unfoldable pub collect : List ChunkResult → Result Collected
unfolding collect_one
collect [] = ok (record { successful = []; failures = [] })
collect (r ∷ rs) = collect_one r >>= λ one. collect rs >>= λ rest. ok (join_collected one rest)

unfoldable pub all_failed : ℕ → List ImageFailure → BridgeError
all_failed requested_count failures =
    with_detail "failed_outputs" (Json.number requested_count)
      (with_detail "all_outputs_failed" (Json.bool true) (first_error failures))
  where
    first_error : List ImageFailure → BridgeError
    first_error [] = bridge_error ErrorCode.upstream "all fan-out outputs failed"
    first_error (failure ∷ _) = failure.error

abbrev pub is_best_effort : MultiImageFailurePolicy → Bool
is_best_effort MultiImageFailurePolicy.best_effort = true
is_best_effort _ = false

-- The warnings of the batch itself.
abbrev pub batch_warnings : BatchExecution → List String
batch_warnings BatchExecution.sequential =
    set_insert "sequential_multi_image_fanout" ("emulated_multi_image_fanout" ∷ [])
batch_warnings _ = "emulated_multi_image_fanout" ∷ []

abbrev pub is_empty {ℓ} : {A : Type ℓ} → List A → Bool
is_empty [] = true
is_empty (_ ∷ _) = false

-- The response of the batch, once the responses are known to be of one provider and model.
unfoldable pub combine :
    ImageRequest → String → Readings → ImageResponse → Collected → Result ImageResponse
combine request request_id readings first c =
    if not (is_empty failures) && not (is_best_effort request.parameters.failure_policy)
    then err (
        bridge_error ErrorCode.protocol
          "fan-out provider returned partial failures under fail-fast policy")
    else ok (record {
      id = request_id;
      created = readings.created;
      provider = first.provider;
      model = first.model;
      requested = request.parameters;
      effective = request.parameters;
      normalizations = [];
      attempts = [];
      images = sort_by_key (λ image. image.index) (all_images c.successful);
      failures = failures;
      revised_prompt = first_revised_prompt c.successful;
      usage = usage_of none c.successful;
      session = merge_sessions c.successful;
      timings = record {
        queue_ms = 0;
        input_ms = 0;
        provider_ms = readings.provider_ms;
        artifact_ms = 0;
        total_ms = readings.total_ms;
      };
      warnings =
          if is_empty failures then warnings else set_insert "partial_output_failure" warnings;
    })
  where
    failures : List ImageFailure
    failures = sort_by_key (λ failure. failure.index) (c.failures ++ all_failures c.successful)

    warnings : List String
    warnings = all_warnings (batch_warnings request.policies.batch_execution) c.successful

-- What follows the loop.
unfoldable pub summarize : ImageRequest → String → ℕ → Readings → Collected → Result ImageResponse
unfolding all_failed same_identity combine
summarize request request_id requested_count readings c = elim c.successful [
  | [] ↦ err (all_failed requested_count c.failures)
  | first ∷ rest ↦
      if same_identity first rest
      then combine request request_id readings first c
      else err
          (bridge_error ErrorCode.protocol "fan-out provider identity changed within one batch")
]

unfoldable pub aggregate :
    ImageRequest → String → ℕ → Readings → List ChunkResult → Result ImageResponse
unfolding collect summarize
aggregate request request_id requested_count readings results =
    collect results >>= summarize request request_id requested_count readings
