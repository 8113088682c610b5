-- ===== src/Runtime/Fanout/Outputs.antt =====
-- What a batch of crates/runtime/src/fanout/mod.rs promises of its outputs.
use imagegen_bridge.Prelude.{
  ℕ, ◌+◌, ◌≤◌, ◌<◌, ◌≡◌, ◌⊎◌, refl, sym, subst, ap, ◌∙◌, false, Option, none, some, List, [], ◌∷◌,
  String, arith, length, ltb, sum_of, sort_by_key, sum_of-sort_by_key, Ascending, All,
  if◌then◌else◌,
}
use imagegen_bridge.Core.Error.{Result, ok, err}
use imagegen_bridge.Core.Parameters.{MultiImageFailurePolicy, BatchExecution, SessionMode}
use imagegen_bridge.Core.Request.{ImageRequest}
use imagegen_bridge.Core.Response.{ImageResponse}
use imagegen_bridge.Runtime.Fanout.Chunks.{
  ChunkSpec, ChunkResult, chunks, covers, unfit, chunks-IsCut,
}
use imagegen_bridge.Runtime.Fanout.Plan.{OutputFanoutConfig, validate_config, batch_parallel}
use imagegen_bridge.Runtime.Fanout.Aggregate.{Readings, aggregate, is_empty, is_best_effort}
use imagegen_bridge.Runtime.Fanout.Batch.{
  Batch, Completion, start_batch, new_batch, finish_batch, advance, drain_active, execute_fanout,
}
use imagegen_bridge.Runtime.Fanout.Coverage.{image_hits, failure_hits}
use imagegen_bridge.Runtime.Fanout.Coverage.Calls.{IsSmall}
use imagegen_bridge.Runtime.Fanout.Coverage.Joined.{
  aggregate-hits, aggregate-fast, aggregate-Ascending,
}
use imagegen_bridge.Runtime.Fanout.Schedule.{
  batch_weight, advance-IsOngoing, drain_active-weight, start_batch-IsOngoing, IsOngoing,
}

fit-IsSmall :
    (native_max total : ℕ) (rs : List ChunkResult)
    → total < 256
    → sum_of (λ r. unfit native_max total r.offset r.count) rs ≡ 0
    → All IsSmall rs
unfolding sum_of
fit-IsSmall native_max total [] small h = tt
fit-IsSmall native_max total (r ∷ rs) small h =
    (ground (arith, h, small), fit-IsSmall native_max total rs small (ground (arith, h)))

pub batch_parallel-positive :
    (config : OutputFanoutConfig) (policy : BatchExecution) (mode : SessionMode)
    → validate_config config ≡ ok config
    → 0 < batch_parallel config policy mode
unfolding batch_parallel validate_config
batch_parallel-positive config BatchExecution.sequential mode h = omega arith
batch_parallel-positive config BatchExecution.parallel mode h = ground (arith, h)
batch_parallel-positive config BatchExecution.auto SessionMode.isolated h = ground (arith, h)
batch_parallel-positive config BatchExecution.auto SessionMode.persistent h = omega arith
batch_parallel-positive config BatchExecution.auto SessionMode.thread h = omega arith

batch_parallel-le :
    (config : OutputFanoutConfig) (policy : BatchExecution) (mode : SessionMode)
    → validate_config config ≡ ok config
    → batch_parallel config policy mode ≤ config.max_parallel_outputs
unfolding batch_parallel validate_config
batch_parallel-le config BatchExecution.sequential mode h = ground (arith, h)
batch_parallel-le config BatchExecution.parallel mode h = omega arith
batch_parallel-le config BatchExecution.auto SessionMode.isolated h = omega arith
batch_parallel-le config BatchExecution.auto SessionMode.persistent h = ground (arith, h)
batch_parallel-le config BatchExecution.auto SessionMode.thread h = ground (arith, h)

-- An output of the request.
abbrev pub requested : ℕ → ℕ → ℕ
requested output n = if ltb output n then 1 else 0

-- The batch of a request that is cut.
pub new_batch-some :
    (n native_max parallel : ℕ) (cut : List ChunkSpec)
    → chunks n native_max ≡ some cut
    → new_batch n native_max parallel ≡ some (start_batch parallel cut)
unfolding new_batch
new_batch-some n native_max parallel cut e = rw e refl

some_inj : (a b : Batch) → some a ≡ some b → a ≡ b
some_inj a b h = cc

finish_batch-results :
    (request : ImageRequest) (request_id : String) (readings : Readings)
    (drained : Option (Result (List ChunkResult))) (response : ImageResponse)
    → finish_batch request request_id readings drained ≡ some (ok response)
    → (results : List ChunkResult) × (drained ≡ some (ok results))
      × (aggregate request request_id request.parameters.n readings
            (sort_by_key (λ r. r.offset) results)
          ≡ ok response)
unfolding finish_batch
finish_batch-results request request_id readings none response h = ground (arith, h)
finish_batch-results request request_id readings (some (err e)) response h = ground (arith, h)
finish_batch-results request request_id readings (some (ok results)) response h =
    (results, refl, ground (arith, h))

module _ (config : OutputFanoutConfig) (request : ImageRequest) (request_id : String)
    (native_max : ℕ) (readings : Readings) where
  -- The batch of a request, and what is made of it.
  pub execute_fanout-finish_batch :
      (completions : List Completion) (cut : List ChunkSpec)
      → chunks request.parameters.n native_max ≡ some cut
      → execute_fanout config request request_id native_max readings completions
        ≡ finish_batch request request_id readings (
            drain_active request.parameters.failure_policy
              (start_batch
                (batch_parallel config request.policies.batch_execution request.session.mode)
                cut)
              completions)
  unfolding execute_fanout
  execute_fanout-finish_batch completions cut e =
      let parallel = batch_parallel config request.policies.batch_execution request.session.mode in
      rw (new_batch-some request.parameters.n native_max parallel cut e, execute_fanout) refl

  -- The aggregated results of a batch that ran to its end.
  execute_fanout-results :
      (completions : List Completion) (response : ImageResponse) (cut : List ChunkSpec)
      → validate_config config ≡ ok config
      → chunks request.parameters.n native_max ≡ some cut
      → execute_fanout config request request_id native_max readings completions
        ≡ some (ok response)
      → (results : List ChunkResult) × ((w : ℕ → ℕ → ℕ)
          → sum_of (λ r. w r.offset r.count) results
            ≡ sum_of (λ chunk. w chunk.offset chunk.count) cut)
        × (aggregate request request_id request.parameters.n readings results ≡ ok response)
  execute_fanout-results completions response cut valid e h =
      let parallel = batch_parallel config request.policies.batch_execution request.session.mode in
      let b = start_batch parallel cut in
      let policy = request.parameters.failure_policy in
      let (results, drained, made) =
        finish_batch-results request request_id readings (drain_active policy b completions)
          response (sym (execute_fanout-finish_batch completions cut e) ∙ h) in
      (
        sort_by_key (λ r. r.offset) results,
        λ w.
            sum_of-sort_by_key (λ r. w r.offset r.count) (λ r. r.offset) results
            ∙ drain_active-weight w _ parallel policy b completions results
                (start_batch-IsOngoing w parallel cut (
                  batch_parallel-positive config request.policies.batch_execution
                    request.session.mode valid))
                drained,
        made,
      )

  -- Whatever the order in which the calls of a batch end, and whichever fail, a response of the
  -- batch accounts for each output once: an output below the requested count has one image or one
  -- failure, another output has none, and the images are in ascending order. The configuration is
  -- accepted, the native count is positive and the requested count has 8 bits.
  pub execute_fanout-outputs :
      (completions : List Completion) (response : ImageResponse) (output : ℕ)
      → validate_config config ≡ ok config
      → 0 < native_max
      → request.parameters.n < 256
      → execute_fanout config request request_id native_max readings completions
        ≡ some (ok response)
      → (image_hits output response.images + failure_hits output response.failures
          ≡ requested output request.parameters.n)
        × Ascending (λ image. image.index) response.images
  execute_fanout-outputs completions response output valid positive small h =
      let n = request.parameters.n in
      let (cut, e, is_cut) = chunks-IsCut n native_max positive small in
      let (results, weights, made) = execute_fanout-results completions response cut valid e h in
      let fit =
        fit-IsSmall native_max n results small (weights (unfit native_max n) ∙ is_cut.fit) in
      (
        aggregate-hits request request_id readings n output results response fit made
            ∙ weights (covers output)
            ∙ is_cut.covered output
            ∙ ground arith,
        aggregate-Ascending request request_id readings n results response made,
      )

  -- Under the fail-fast policy a response of the batch has no failure and one image for each
  -- requested output, and none for another. The configuration is accepted, the native count is
  -- positive and the requested count has 8 bits.
  pub execute_fanout-fail_fast :
      (completions : List Completion) (response : ImageResponse) (output : ℕ)
      → validate_config config ≡ ok config
      → 0 < native_max
      → request.parameters.n < 256
      → request.parameters.failure_policy ≡ MultiImageFailurePolicy.fail_fast
      → execute_fanout config request request_id native_max readings completions
        ≡ some (ok response)
      → (response.failures ≡ [])
        × (image_hits output response.images ≡ requested output request.parameters.n)
  unfolding sum_of
  execute_fanout-fail_fast completions response output valid positive small fast h =
      let (cut, e, is_cut) = chunks-IsCut request.parameters.n native_max positive small in
      let (results, weights, made) = execute_fanout-results completions response cut valid e h in
      let slow : is_best_effort request.parameters.failure_policy ≡ false =
        ap is_best_effort fast in
      let none_failed =
        aggregate-fast request request_id readings request.parameters.n results response slow
          made in
      let all = (execute_fanout-outputs completions response output valid positive small h).0 in
      (none_failed, ground (arith, all, none_failed))

  -- After any calls of a batch have ended, in any order, from its start on: at most
  -- `max_parallel_outputs` calls are active; each requested output is in one chunk, be it waiting,
  -- active or answered, and no other output is; each chunk has from one output to the native count;
  -- and no chunk waits while no call is active. The configuration is accepted, the native count is
  -- positive and the requested count has 8 bits.
  pub new_batch-advance :
      (completions : List Completion) (start b : Batch) (output : ℕ)
      → validate_config config ≡ ok config
      → 0 < native_max
      → request.parameters.n < 256
      → new_batch request.parameters.n native_max
          (batch_parallel config request.policies.batch_execution request.session.mode)
        ≡ some start
      → advance request.parameters.failure_policy start completions ≡ ok b
      → (length b.active ≤ config.max_parallel_outputs)
        × (batch_weight (covers output) b ≡ requested output request.parameters.n)
        × (batch_weight (unfit native_max request.parameters.n) b ≡ 0)
        × ((b.waiting ≡ []) ⊎ (is_empty b.active ≡ false))
  new_batch-advance completions start b output valid positive small started h =
      let n = request.parameters.n in
      let policy = request.parameters.failure_policy in
      let execution = request.policies.batch_execution in
      let parallel = batch_parallel config execution request.session.mode in
      let enough = batch_parallel-positive config execution request.session.mode valid in
      let few = batch_parallel-le config execution request.session.mode valid in
      let (cut, e, is_cut) = chunks-IsCut n native_max positive small in
      let same : start_batch parallel cut ≡ start =
        some_inj (start_batch parallel cut) start
          (sym (new_batch-some n native_max parallel cut e) ∙ started) in
      let ongoing : (w : ℕ → ℕ → ℕ)
          → IsOngoing w (sum_of (λ chunk. w chunk.offset chunk.count) cut) parallel b =
        λ w.
          advance-IsOngoing w _ parallel policy start b completions
            (subst (IsOngoing w _ parallel) same (start_batch-IsOngoing w parallel cut enough)) h in
      (
        omega (arith, (ongoing (covers output)).few, few),
        (ongoing (covers output)).kept ∙ is_cut.covered output ∙ ground arith,
        (ongoing (unfit native_max n)).kept ∙ is_cut.fit,
        (ongoing (covers output)).busy,
      )
