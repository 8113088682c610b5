-- ===== src/Runtime/Fanout/Ending.antt =====
-- A batch of crates/runtime/src/fanout/mod.rs comes to its end.
use imagegen_bridge.Prelude.{
  ℕ, zero, suc, ◌+◌, ◌≤◌, ◌<◌, ◌≡◌, refl, sym, ap, Option, ◌∙◌, subst, none, some, List, [], ◌∷◌,
  String, arith, length, length-append, get_elem?, List-cases, Option-cases, inl, inr, All,
}
use imagegen_bridge.Core.Error.{Result, Result-cases, ok, err}
use imagegen_bridge.Core.Parameters.{MultiImageFailurePolicy}
use imagegen_bridge.Core.Request.{ImageRequest}
use imagegen_bridge.Runtime.Fanout.Chunks.{ChunkSpec, ChunkResult, chunks-IsCut}
use imagegen_bridge.Runtime.Fanout.Outputs.{batch_parallel-positive, execute_fanout-finish_batch}
use imagegen_bridge.Runtime.Fanout.Plan.{OutputFanoutConfig, validate_config, batch_parallel}
use imagegen_bridge.Runtime.Fanout.Aggregate.{Readings}
use imagegen_bridge.Runtime.Fanout.Batch.{
  Batch, Completion, push_next, push_many, take_active, with_result, record_result,
  after_completion, start_batch, finish_batch, advance, drain_active, execute_fanout,
}
use imagegen_bridge.Runtime.Fanout.Schedule.{
  IsBusy, push_next-IsBusy, after_completion-recorded, length-erase_idx, start_batch-IsOngoing,
}

-- The chunks without a result.
abbrev unanswered : Batch → ℕ
unanswered b = length b.waiting + length b.active

push_next-unanswered : (b : Batch) → unanswered (push_next b) ≡ unanswered b
unfolding push_next
push_next-unanswered b = elim (List-cases b.waiting) [
  | inl e ↦ ground (arith, e)
  | inr (chunk, rest, e) ↦ ground (arith, e, length-append b.active (chunk ∷ []))
]

push_many-unanswered : (n : ℕ) (b : Batch) → unanswered (push_many n b) ≡ unanswered b
unfolding push_many
push_many-unanswered zero b = refl
push_many-unanswered (suc n) b = push_many-unanswered n (push_next b) ∙ push_next-unanswered b

record_result-unanswered :
    (chunk : ChunkSpec) (completion : Completion) (b : Batch)
    → get_elem? b.active completion.position ≡ some chunk
    → unanswered (record_result chunk completion (take_active completion.position b)) + 1
      ≡ unanswered b
unfolding record_result
record_result-unanswered chunk completion b h = omega (
  arith,
  push_next-unanswered (with_result chunk completion (take_active completion.position b)),
  length-erase_idx b.active completion.position chunk h,
)

record_result-IsBusy :
    (chunk : ChunkSpec) (completion : Completion) (b : Batch)
    → IsBusy (record_result chunk completion b)
unfolding record_result
record_result-IsBusy chunk completion b = push_next-IsBusy (with_result chunk completion b)

-- A completion of the call that has been active for the longest.
abbrev pub IsOldest : Completion → Type 0
IsOldest completion = completion.position ≡ 0

-- Where the oldest call is none, every chunk has a result.
idle-answered :
    (b : Batch) (completion : Completion)
    → IsBusy b
    → IsOldest completion
    → get_elem? b.active completion.position ≡ none
    → (n : ℕ) → unanswered b ≤ n
idle-answered b completion busy oldest absent n = elim (List-cases b.active) [
  | inr (x, xs, e) ↦ absurd ground (arith, absent, oldest, e)
  | inl e ↦ elim busy [
    | inr active ↦ absurd ground (arith, active, e)
    | inl e' ↦ ground (arith, e, e')
  ]
]

advance-some :
    (policy : MultiImageFailurePolicy) (b : Batch) (completions : List Completion)
    → IsBusy b
    → All IsOldest completions
    → unanswered b ≤ length completions
    → ¬ drain_active policy b completions ≡ none
unfolding drain_active advance
advance-some policy b [] busy oldest enough h = elim (List-cases b.active) [
  | inl e ↦ ground (arith, h, e)
  | inr (x, xs, e) ↦ ground (arith, enough, e)
]
advance-some policy b (completion ∷ completions) busy oldest enough h =
    elim (Option-cases (get_elem? b.active completion.position)) [
      | inl absent ↦
          advance-some policy b completions busy oldest.1
            (idle-answered b completion busy oldest.0 absent (length completions))
            (ground (arith, h, absent))
      | inr (chunk, found) ↦
          let taken = take_active completion.position b in
          elim (Result-cases (after_completion policy chunk completion taken)) [
            | inr (x, failed) ↦ absurd ground (arith, h, found, failed)
            | inl (b', made) ↦
                let recorded = after_completion-recorded policy chunk completion taken b' made in
                let fewer = record_result-unanswered chunk completion b found in
                advance-some policy b' completions
                  (subst IsBusy recorded (record_result-IsBusy chunk completion taken)) oldest.1
                  (omega (arith, enough, fewer, ap unanswered recorded))
                  (ground (arith, h, found, made))
          ]
    ]

start_batch-IsBusy :
    (parallel : ℕ) (cut : List ChunkSpec) → 0 < parallel → IsBusy (start_batch parallel cut)
start_batch-IsBusy parallel cut positive =
    (start_batch-IsOngoing (λ _ _. 0) parallel cut positive).busy

start_batch-unanswered :
    (parallel : ℕ) (cut : List ChunkSpec) → unanswered (start_batch parallel cut) ≡ length cut
unfolding start_batch
start_batch-unanswered parallel cut =
    omega
      (arith, push_many-unanswered parallel (record { waiting = cut; active = []; results = [] }))

finish_batch-some :
    (request : ImageRequest) (request_id : String) (readings : Readings)
    (drained : Option (Result (List ChunkResult)))
    → ¬ drained ≡ none
    → ¬ finish_batch request request_id readings drained ≡ none
unfolding finish_batch
finish_batch-some request request_id readings none some_one h = some_one refl
finish_batch-some request request_id readings (some (err e)) some_one h = ground (arith, h)
finish_batch-some request request_id readings (some (ok results)) some_one h = ground (arith, h)

-- A batch comes to its end: the loop that cuts it stops, and with as many completions as requested
-- outputs, each of the call that has been active for the longest, `execute_fanout` has a result.
-- The configuration is accepted, the native count is positive and the requested count has 8 bits.
pub execute_fanout-ends :
    (config : OutputFanoutConfig) (request : ImageRequest) (request_id : String) (native_max : ℕ)
    (readings : Readings) (completions : List Completion)
    → validate_config config ≡ ok config
    → 0 < native_max
    → request.parameters.n < 256
    → All IsOldest completions
    → request.parameters.n ≤ length completions
    → ¬ execute_fanout config request request_id native_max readings completions ≡ none
execute_fanout-ends config request request_id native_max readings completions valid positive small
      oldest enough h =
    let policy = request.parameters.failure_policy in
    let parallel = batch_parallel config request.policies.batch_execution request.session.mode in
    let (cut, e, is_cut) = chunks-IsCut request.parameters.n native_max positive small in
    let b = start_batch parallel cut in
    finish_batch-some request request_id readings (drain_active policy b completions)
      (advance-some policy b completions
        (start_batch-IsBusy parallel cut (
          batch_parallel-positive config request.policies.batch_execution request.session.mode
            valid))
        oldest (omega (arith, enough, start_batch-unanswered parallel cut, is_cut.few)))
      (sym (
          execute_fanout-finish_batch config request request_id native_max readings completions cut
            e)
        ∙ h)
