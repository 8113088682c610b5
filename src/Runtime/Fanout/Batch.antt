-- ===== src/Runtime/Fanout/Batch.antt =====
-- `execute_fanout` of crates/runtime/src/fanout/mod.rs: which calls are active, and what their results
-- do. A call ends whenever its provider likes, so the results come as a list in any order.
use mathlib.Core.Option
use imagegen_bridge.Prelude.{
  ℕ, zero, suc, String, false, ◌||◌, not, Option, none, some, List, [], ◌∷◌, ◌++◌, get_elem?,
  erase_idx, if◌then◌else◌, sort_by_key,
}
use imagegen_bridge.Core.Error.{
  Json, BridgeError, with_retryable, with_detail, Result, ok, err, ◌>>=◌,
}
use imagegen_bridge.Core.Parameters.{MultiImageFailurePolicy}
use imagegen_bridge.Core.Request.{ImageRequest}
use imagegen_bridge.Core.Response.{ImageResponse}
use imagegen_bridge.Runtime.Fanout.Chunks.{ChunkSpec, ChunkResult, chunks}
use imagegen_bridge.Runtime.Fanout.Plan.{OutputFanoutConfig, batch_parallel}
use imagegen_bridge.Runtime.Fanout.Aggregate.{Readings, aggregate, is_best_effort, is_empty}

-- The chunks that wait, the calls that are active, and the results so far.
pub record Batch : Type 0 where
  pub waiting : List ChunkSpec
  pub active : List ChunkSpec
  pub results : List ChunkResult

-- The end of the active call at a position.
pub record Completion : Type 0 where
  pub position : ℕ
  pub elapsed_ms : ℕ
  pub result : Result ImageResponse

unfoldable pub push_next : Batch → Batch
push_next b = elim b.waiting [
  | [] ↦ b
  | chunk ∷ waiting ↦ record b { waiting = waiting; active = b.active ++ chunk ∷ [] }
]

unfoldable pub push_many : ℕ → Batch → Batch
unfolding push_next
push_many zero b = b
push_many (suc n) b = push_many n (push_next b)

-- The batch of some chunks once the first calls are active.
unfoldable pub start_batch : ℕ → List ChunkSpec → Batch
unfolding push_many
start_batch parallel waiting =
    push_many parallel (record { waiting = waiting; active = []; results = [] })

-- The batch of a request, if the loop that cuts it ends.
unfoldable pub new_batch : ℕ → ℕ → ℕ → Option Batch
unfolding chunks start_batch
new_batch n native_max parallel = Option.map (start_batch parallel) (chunks n native_max)

-- The error that ends a batch that fails fast.
unfoldable pub first_failure : BridgeError → ChunkSpec → ℕ → Batch → BridgeError
first_failure e chunk elapsed_ms b =
    let located =
      with_detail "generation_ms" (Json.number elapsed_ms)
        (with_detail "output_index" (Json.number chunk.offset) e) in
    if not (is_empty b.active) || not (is_empty b.results)
    then with_detail "retry_scope" (Json.text "do_not_retry_full_batch")
        (with_detail "outcome" (Json.text "unknown") (with_retryable false located))
    else located

abbrev pub take_active : ℕ → Batch → Batch
take_active position b = record b { active = erase_idx b.active position }

abbrev pub with_result : ChunkSpec → Completion → Batch → Batch
with_result chunk completion b = record b {
  results =
      b.results
      ++ record {
        offset = chunk.offset;
        count = chunk.count;
        elapsed_ms = completion.elapsed_ms;
        result = completion.result;
      }
        ∷ [];
}

-- A result is kept and the next chunk starts.
unfoldable pub record_result : ChunkSpec → Completion → Batch → Batch
unfolding push_next
record_result chunk completion b = push_next (with_result chunk completion b)

-- One round of the loop on results, of the chunk whose call has ended.
unfoldable pub after_completion :
    MultiImageFailurePolicy → ChunkSpec → Completion → Batch → Result Batch
unfolding first_failure record_result
after_completion policy chunk completion b = elim completion.result [
  | ok response ↦ ok (record_result chunk completion b)
  | err e ↦
      if is_best_effort policy
      then ok (record_result chunk completion b)
      else err (first_failure e chunk completion.elapsed_ms b)
]

-- The rounds of the loop. A completion of no active call is none.
unfoldable pub advance : MultiImageFailurePolicy → Batch → List Completion → Result Batch
unfolding after_completion
advance policy b [] = ok b
advance policy b (completion ∷ completions) = elim (get_elem? b.active completion.position) [
  | none ↦ advance policy b completions
  | some chunk ↦
      after_completion policy chunk completion (take_active completion.position b) >>= λ b'.
      advance policy b' completions
]

-- The loop, which has no result while a call is active.
unfoldable pub drain_active :
    MultiImageFailurePolicy → Batch → List Completion → Option (Result (List ChunkResult))
unfolding advance
drain_active policy b completions = elim (advance policy b completions) [
  | err e ↦ some (err e)
  | ok b' ↦ if is_empty b'.active then some (ok b'.results) else none
]

-- What follows the loop: the results in the order of their chunks, aggregated.
unfoldable pub finish_batch :
    ImageRequest
    → String
    → Readings
    → Option (Result (List ChunkResult))
    → Option (Result ImageResponse)
unfolding aggregate
finish_batch request request_id readings none = none
finish_batch request request_id readings (some (err e)) = some (err e)
finish_batch request request_id readings (some (ok results)) = some (
    aggregate request request_id request.parameters.n readings
      (sort_by_key (λ r. r.offset) results))

-- OutputFanoutProvider::execute_fanout
unfoldable pub execute_fanout :
    OutputFanoutConfig
    → ImageRequest
    → String
    → ℕ
    → Readings
    → List Completion
    → Option (Result ImageResponse)
unfolding new_batch drain_active finish_batch
execute_fanout config request request_id native_max readings completions =
    let parallel = batch_parallel config request.policies.batch_execution request.session.mode in
    elim (new_batch request.parameters.n native_max parallel) [
      | none ↦ none
      | some b ↦
          finish_batch request request_id readings
            (drain_active request.parameters.failure_policy b completions)
    ]
