-- ===== src/Runtime/Fanout/Schedule.antt =====
-- The calls of crates/runtime/src/fanout/mod.rs: none is lost, and few are active at once.
use imagegen_bridge.Prelude.{
  ℕ, zero, suc, ◌+◌, ◌≤◌, ◌<◌, ◌≡◌, ◌⊎◌, refl, ap, ◌∙◌, subst, true, false, some, List, [], ◌∷◌,
  ◌++◌, arith, length, length-append, get_elem?, erase_idx, sum_of, sum_of-append, Bool-cases,
  List-cases, Option-cases, inl, inr,
}
use imagegen_bridge.Core.Error.{Result-cases, ok}
use imagegen_bridge.Core.Parameters.{MultiImageFailurePolicy}
use imagegen_bridge.Runtime.Fanout.Chunks.{ChunkSpec, ChunkResult}
use imagegen_bridge.Runtime.Fanout.Aggregate.{is_empty, is_best_effort}
use imagegen_bridge.Runtime.Fanout.Batch.{
  Batch, Completion, push_next, push_many, start_batch, take_active, with_result, record_result,
  after_completion, advance, drain_active,
}

-- The chunks of a batch, wherever they are, weighed by offset and count.
abbrev pub batch_weight : (ℕ → ℕ → ℕ) → Batch → ℕ
batch_weight w b =
    sum_of (λ chunk. w chunk.offset chunk.count) b.waiting
    + sum_of (λ chunk. w chunk.offset chunk.count) b.active
    + sum_of (λ r. w r.offset r.count) b.results

-- No chunk waits while no call is active.
abbrev pub IsBusy : Batch → Type 0
IsBusy b = (b.waiting ≡ []) ⊎ (is_empty b.active ≡ false)

is_empty-append : {A : Type 0} (xs : List A) (x : A) → is_empty (xs ++ x ∷ []) ≡ false
is_empty-append [] x = refl
is_empty-append (y ∷ xs) x = refl

push_next-none : (b : Batch) → b.waiting ≡ [] → push_next b ≡ b
unfolding push_next
push_next-none b e = ground (arith, e)

push_next-weight : (w : ℕ → ℕ → ℕ) (b : Batch) → batch_weight w (push_next b) ≡ batch_weight w b
unfolding push_next sum_of
push_next-weight w b = elim (List-cases b.waiting) [
  | inl e ↦ ap (batch_weight w) (push_next-none b e)
  | inr (chunk, rest, e) ↦
      rw (e, push_next, sum_of)
        (omega (arith, sum_of-append (λ chunk. w chunk.offset chunk.count) b.active (chunk ∷ [])))
]

pub push_next-IsBusy : (b : Batch) → IsBusy (push_next b)
unfolding push_next
push_next-IsBusy b = elim (List-cases b.waiting) [
  | inl e ↦ rw (e, push_next) (inl e)
  | inr (chunk, rest, e) ↦ rw (e, push_next) (inr (is_empty-append b.active chunk))
]

push_next-length : (b : Batch) → length (push_next b).active ≤ length b.active + 1
unfolding push_next
push_next-length b = elim (List-cases b.waiting) [
  | inl e ↦ rw (e, push_next) (omega arith)
  | inr (chunk, rest, e) ↦ rw (e, push_next) (omega (arith, length-append b.active (chunk ∷ [])))
]

push_many-weight :
    (w : ℕ → ℕ → ℕ) (n : ℕ) (b : Batch) → batch_weight w (push_many n b) ≡ batch_weight w b
unfolding push_many
push_many-weight w zero b = refl
push_many-weight w (suc n) b = push_many-weight w n (push_next b) ∙ push_next-weight w b

pub push_many-IsBusy : (n : ℕ) (b : Batch) → IsBusy b → IsBusy (push_many n b)
unfolding push_many
push_many-IsBusy zero b h = h
push_many-IsBusy (suc n) b h = push_many-IsBusy n (push_next b) (push_next-IsBusy b)

push_many-length : (n : ℕ) (b : Batch) → length (push_many n b).active ≤ length b.active + n
unfolding push_many
push_many-length zero b = omega arith
push_many-length (suc n) b = omega (arith, push_many-length n (push_next b), push_next-length b)

sum_of-erase_idx :
    {A : Type 0} (w : A → ℕ) (xs : List A) (i : ℕ) (x : A)
    → get_elem? xs i ≡ some x
    → sum_of w (erase_idx xs i) + w x ≡ sum_of w xs
unfolding sum_of
sum_of-erase_idx w [] i x h = cc
sum_of-erase_idx w (y ∷ ys) zero x h = ground (arith, h)
sum_of-erase_idx w (y ∷ ys) (suc i) x h = omega (arith, sum_of-erase_idx w ys i x h)

pub length-erase_idx :
    {A : Type 0} (xs : List A) (i : ℕ) (x : A)
    → get_elem? xs i ≡ some x
    → length (erase_idx xs i) + 1 ≡ length xs
length-erase_idx [] i x h = cc
length-erase_idx (y ∷ ys) zero x h = omega arith
length-erase_idx (y ∷ ys) (suc i) x h = omega (arith, length-erase_idx ys i x h)

-- Once no call is active, every chunk has a result.
drained-weight :
    (w : ℕ → ℕ → ℕ) (weight : ℕ) (b : Batch)
    → is_empty b.active ≡ true
    → IsBusy b
    → batch_weight w b ≡ weight
    → sum_of (λ r. w r.offset r.count) b.results ≡ weight
unfolding sum_of
drained-weight w weight b done busy kept = elim (List-cases b.active) [
  | inr (x, xs, e) ↦ absurd ground (arith, done, e)
  | inl e ↦ elim busy [
    | inr active ↦ absurd ground (arith, done, active)
    | inl e' ↦ ground (arith, kept, e, e')
  ]
]

-- A round that goes on has recorded the result.
pub after_completion-recorded :
    (policy : MultiImageFailurePolicy) (chunk : ChunkSpec) (completion : Completion) (b b' : Batch)
    → after_completion policy chunk completion b ≡ ok b'
    → record_result chunk completion b ≡ b'
unfolding after_completion
after_completion-recorded policy chunk completion b b' e = elim (Result-cases completion.result) [
  | inl (response, made) ↦ ground (arith, e, made)
  | inr (x, failed) ↦ elim (Bool-cases (is_best_effort policy)) [
    | inl best ↦ ground (arith, e, failed, best)
    | inr fast ↦ absurd ground (arith, e, failed, fast)
  ]
]

-- What a batch keeps while results come in.
pub record IsOngoing (w : ℕ → ℕ → ℕ) (weight parallel : ℕ) (b : Batch) : Type 0 where
  pub busy : IsBusy b
  pub kept : batch_weight w b ≡ weight
  pub few : length b.active ≤ parallel

module _ (w : ℕ → ℕ → ℕ) (weight parallel : ℕ) where
  record_result-IsOngoing :
      (chunk : ChunkSpec) (completion : Completion) (b : Batch)
      → IsOngoing w weight parallel b
      → get_elem? b.active completion.position ≡ some chunk
      → IsOngoing w weight parallel
          (record_result chunk completion (take_active completion.position b))
  unfolding record_result sum_of
  record_result-IsOngoing chunk completion b o h =
      let taken = with_result chunk completion (take_active completion.position b) in
      record {
        busy = push_next-IsBusy taken;
        kept = omega (
          arith,
          o.kept,
          push_next-weight w taken,
          sum_of-append (λ r. w r.offset r.count) b.results
              (record {
                offset = chunk.offset;
                count = chunk.count;
                elapsed_ms = completion.elapsed_ms;
                result = completion.result;
              }
                ∷ []),
          sum_of-erase_idx (λ chunk. w chunk.offset chunk.count) b.active completion.position chunk
              h,
        );
        few = omega (
          arith,
          o.few,
          push_next-length taken,
          length-erase_idx b.active completion.position chunk h,
        );
      }

  pub after_completion-IsOngoing :
      (policy : MultiImageFailurePolicy) (chunk : ChunkSpec) (completion : Completion)
      (b b' : Batch)
      → IsOngoing w weight parallel b
      → get_elem? b.active completion.position ≡ some chunk
      → after_completion policy chunk completion (take_active completion.position b) ≡ ok b'
      → IsOngoing w weight parallel b'
  after_completion-IsOngoing policy chunk completion b b' o h e =
      subst (IsOngoing w weight parallel)
        (after_completion-recorded policy chunk completion (take_active completion.position b) b' e)
        (record_result-IsOngoing chunk completion b o h)

  pub advance-IsOngoing :
      (policy : MultiImageFailurePolicy) (b b' : Batch) (completions : List Completion)
      → IsOngoing w weight parallel b
      → advance policy b completions ≡ ok b'
      → IsOngoing w weight parallel b'
  unfolding advance
  advance-IsOngoing policy b b' [] o h =
      let same : b ≡ b' = cc in subst (IsOngoing w weight parallel) same o
  advance-IsOngoing policy b b' (completion ∷ completions) o h =
      elim (Option-cases (get_elem? b.active completion.position)) [
        | inl absent ↦ advance-IsOngoing policy b b' completions o (ground (arith, h, absent))
        | inr (chunk, found) ↦
            let taken = take_active completion.position b in
            elim (Result-cases (after_completion policy chunk completion taken)) [
              | inr (x, failed) ↦ absurd ground (arith, h, found, failed)
              | inl (next, made) ↦
                  advance-IsOngoing policy next b' completions
                    (after_completion-IsOngoing policy chunk completion b next o found made)
                    (ground (arith, h, found, made))
            ]
      ]

  pub drain_active-weight :
      (policy : MultiImageFailurePolicy) (b : Batch) (completions : List Completion)
      (results : List ChunkResult)
      → IsOngoing w weight parallel b
      → drain_active policy b completions ≡ some (ok results)
      → sum_of (λ r. w r.offset r.count) results ≡ weight
  unfolding drain_active
  drain_active-weight policy b completions results o h =
      elim (Result-cases (advance policy b completions)) [
        | inr (x, failed) ↦ absurd ground (arith, h, failed)
        | inl (b', made) ↦
            let o' = advance-IsOngoing policy b b' completions o made in
            elim (Bool-cases (is_empty b'.active)) [
              | inr more ↦ absurd ground (arith, h, made, more)
              | inl done ↦
                  let same : b'.results ≡ results = ground (arith, h, made, done) in
                  subst (λ rs. sum_of (λ r. w r.offset r.count) rs ≡ weight) same
                    (drained-weight w weight b' done o'.busy o'.kept)
            ]
      ]

pub start_batch-IsOngoing :
    (w : ℕ → ℕ → ℕ) (parallel : ℕ) (cut : List ChunkSpec)
    → 0 < parallel
    → IsOngoing w
        (sum_of (λ chunk. w chunk.offset chunk.count) cut)
        parallel
        (start_batch parallel cut)
unfolding start_batch push_many sum_of
start_batch-IsOngoing w zero cut positive = absurd (omega arith)
start_batch-IsOngoing w (suc parallel) cut positive =
    let b : Batch = record { waiting = cut; active = []; results = [] } in
    record {
      busy = push_many-IsBusy parallel (push_next b) (push_next-IsBusy b);
      kept = push_many-weight w (suc parallel) b ∙ omega arith;
      few = omega (arith, push_many-length parallel (push_next b), push_next-length b);
    }
