-- ===== src/Tests/Fanout.antt =====
-- Examples for the theorems on crates/runtime/src/fanout/mod.rs.
use imagegen_bridge.Prelude.{
  ℕ, zero, suc, ◌+◌, ◌≤◌, ◌≡◌, ◌⊎◌, refl, false, Option, none, some, List, [], ◌∷◌, arith,
  insert_by, sort_by_key, Ascending, set_insert, set_extend, insert, map,
}
use imagegen_bridge.Core.Error.{
  bridge_error, with_detail, default_suggestions, ErrorCode, Result, ok, err,
}
use imagegen_bridge.Core.Parameters.{MultiImageFailurePolicy, OutputFormat}
use imagegen_bridge.Core.Request.{ImageRequest, generate_request, default_parameters}
use imagegen_bridge.Core.Response.{GeneratedImage, ImagePayload, ImageResponse, ProviderEvent}
use imagegen_bridge.Runtime.Fanout.Chunks.{chunks_from, chunks, covers, unfit}
use imagegen_bridge.Runtime.Fanout.Plan.{
  OutputFanoutConfig, validate_config, batch_parallel, map_event, map_event-covers,
}
use imagegen_bridge.Runtime.Fanout.Merge.{
  same_identity, usage_of, merge_sessions, same_session, first_revised_prompt, all_images,
  all_failures, all_warnings,
}
use imagegen_bridge.Runtime.Fanout.Aggregate.{
  Readings, span, numbers_eq, validate_chunk_indices, get_or_insert, collect_one, collect, combine,
  summarize, aggregate, is_empty,
}
use imagegen_bridge.Runtime.Fanout.Batch.{
  Batch, Completion, push_next, push_many, start_batch, new_batch, finish_batch, first_failure,
  record_result, after_completion, advance, drain_active, execute_fanout,
}
use imagegen_bridge.Runtime.Fanout.Coverage.{image_hits, failure_hits}
use imagegen_bridge.Runtime.Fanout.Schedule.{batch_weight}
use imagegen_bridge.Runtime.Fanout.Outputs.{
  execute_fanout-outputs, execute_fanout-fail_fast, new_batch-advance,
}
use imagegen_bridge.Runtime.Fanout.Ending.{execute_fanout-ends}

abbrev pub config : OutputFanoutConfig
config = record { max_outputs = 10; max_parallel_outputs = 2 }

abbrev pub readings : Readings
readings = record { created = 1_700; provider_ms = 90; total_ms = 95 }

-- Five foxes.
abbrev pub five : MultiImageFailurePolicy → ImageRequest
five policy =
    let fox = generate_request "a fox" in
    record fox { parameters = record fox.parameters { n = 5; failure_policy = policy } }

abbrev pub image : ℕ → GeneratedImage
image index = record {
  index = index;
  payload = ImagePayload.metadata;
  format = OutputFormat.png;
  width = 1;
  height = 1;
  bytes = 5;
  sha256 = "0";
  generation_ms = none;
  metadata_name = none;
}

-- A response with its images in descending order.
abbrev pub images_down : ℕ → List GeneratedImage
images_down zero = []
images_down (suc n) = image n ∷ images_down n

abbrev pub canned : ℕ → ImageResponse
canned count = record {
  id = "call";
  created = 1_700;
  provider = "codex";
  model = "gpt";
  requested = default_parameters;
  effective = default_parameters;
  normalizations = [];
  attempts = [];
  images = images_down count;
  failures = [];
  revised_prompt = none;
  usage = none;
  session = none;
  timings = record { queue_ms = 0; input_ms = 0; provider_ms = 0; artifact_ms = 0; total_ms = 0 };
  warnings = [];
}

abbrev pub succeeds : ℕ → ℕ → Completion
succeeds position count = record { position = position; elapsed_ms = 7; result = ok (canned count) }

abbrev breaks : ℕ → Completion
breaks position = record {
  position = position;
  elapsed_ms = 9;
  result = err (bridge_error ErrorCode.upstream "no");
}

-- The calls of five outputs, two in each: the second ends first, the third fails.
abbrev with_failure : List Completion
with_failure = succeeds 1 2 ∷ breaks 1 ∷ succeeds 0 2 ∷ []

abbrev pub all_well : List Completion
all_well = succeeds 0 2 ∷ succeeds 0 2 ∷ succeeds 0 1 ∷ succeeds 0 1 ∷ succeeds 0 1 ∷ []

abbrev pub result_of : Option (Result ImageResponse) → ImageResponse
result_of (some (ok response)) = response
result_of _ = canned 0

abbrev best : ImageRequest
best = five MultiImageFailurePolicy.best_effort

abbrev pub fast : ImageRequest
fast = five MultiImageFailurePolicy.fail_fast

abbrev joined : ImageResponse
joined = result_of (execute_fanout config best "r" 2 readings with_failure)

abbrev pub joined_fast : ImageResponse
joined_fast = result_of (execute_fanout config fast "r" 2 readings all_well)

joined_result :
    (execute_fanout config best "r" 2 readings with_failure ≡ some (ok joined))
    × (map (λ i. i.index) joined.images ≡ 0 ∷ 1 ∷ 2 ∷ 3 ∷ [])
    × (map (λ f. f.index) joined.failures ≡ 4 ∷ [])
unfolding execute_fanout finish_batch batch_parallel new_batch start_batch chunks chunks_from
    push_many push_next drain_active advance after_completion record_result first_failure aggregate
    collect collect_one validate_chunk_indices numbers_eq span get_or_insert summarize same_identity
    combine usage_of merge_sessions same_session first_revised_prompt all_images all_failures
    all_warnings set_insert set_extend insert sort_by_key insert_by bridge_error with_detail
    default_suggestions
joined_result = (refl, refl, refl)

pub joined_fast_result : execute_fanout config fast "r" 2 readings all_well ≡ some (ok joined_fast)
unfolding execute_fanout finish_batch batch_parallel new_batch start_batch chunks chunks_from
    push_many push_next drain_active advance after_completion record_result first_failure aggregate
    collect collect_one validate_chunk_indices numbers_eq span get_or_insert summarize same_identity
    combine usage_of merge_sessions same_session first_revised_prompt all_images all_failures
    all_warnings set_insert set_extend insert sort_by_key insert_by bridge_error with_detail
    default_suggestions
joined_fast_result = refl

execute_fanout-outputs_example :
    (image_hits 4 joined.images + failure_hits 4 joined.failures ≡ 1)
    × Ascending (λ i. i.index) joined.images
unfolding validate_config
execute_fanout-outputs_example =
    execute_fanout-outputs config best "r" 2 readings with_failure joined 4 refl (ground arith)
      (ground arith) joined_result.0

execute_fanout-fail_fast_example :
    (joined_fast.failures ≡ []) × (image_hits 4 joined_fast.images ≡ 1)
unfolding validate_config
execute_fanout-fail_fast_example =
    execute_fanout-fail_fast config fast "r" 2 readings all_well joined_fast 4 refl (ground arith)
      (ground arith) refl joined_fast_result

-- The batch once its second call has ended.
abbrev one_ended : Batch
one_ended = record {
  waiting = [];
  active = record { offset = 0; count = 2 } ∷ record { offset = 4; count = 1 } ∷ [];
  results = record { offset = 2; count = 2; elapsed_ms = 7; result = ok (canned 2) } ∷ [];
}

-- The batch at its start.
abbrev begun : Batch
begun = record {
  waiting = record { offset = 4; count = 1 } ∷ [];
  active = record { offset = 0; count = 2 } ∷ record { offset = 2; count = 2 } ∷ [];
  results = [];
}

begun_result :
    new_batch 5 2 (batch_parallel config best.policies.batch_execution best.session.mode)
    ≡ some begun
unfolding batch_parallel new_batch start_batch chunks chunks_from push_many push_next
begun_result = refl

-- A provider that serves nothing: the loop that cuts the request does not end, whatever the fuel.
never_cut : chunks_from 300 0 5 0 ≡ none
unfolding chunks_from
never_cut = refl

one_ended_result :
    advance MultiImageFailurePolicy.best_effort begun (succeeds 1 2 ∷ []) ≡ ok one_ended
unfolding advance after_completion record_result push_next
one_ended_result = refl

new_batch-advance_example :
    (2 ≤ 2)
    × (batch_weight (covers 4) one_ended ≡ 1)
    × (batch_weight (unfit 2 5) one_ended ≡ 0)
    × ((one_ended.waiting ≡ []) ⊎ (is_empty one_ended.active ≡ false))
unfolding validate_config
new_batch-advance_example =
    new_batch-advance config best "r" 2 readings (succeeds 1 2 ∷ []) begun one_ended 4 refl
      (ground arith) (ground arith) begun_result one_ended_result

execute_fanout-ends_example : ¬ execute_fanout config fast "r" 2 readings all_well ≡ none
unfolding validate_config
execute_fanout-ends_example =
    execute_fanout-ends config fast "r" 2 readings all_well refl (ground arith) (ground arith)
      (refl, (refl, (refl, (refl, (refl, tt))))) (ground arith)

map_event-covers_example : covers 3 2 2 ≡ 1
unfolding map_event
map_event-covers_example =
    map_event-covers (ProviderEvent.partial_image 1 0 "aW1hZ2U=") 2 2 3 0 "aW1hZ2U=" (ground arith)
      refl
