-- ===== src/Runtime/Fanout/Coverage/Calls.antt =====
-- What the calls of a batch of crates/runtime/src/fanout/mod.rs account for, put together.
use imagegen_bridge.Prelude.{
  ℕ, ◌+◌, ◌≤◌, ◌≡◌, refl, ap, ◌∙◌, subst, List, [], ◌∷◌, ◌++◌, map, arith, sum_of, sum_of-append,
  sum_of-map, inl, inr, All, wrapping_add_u8,
}
use imagegen_bridge.Core.Error.{Result-cases, ok, err, ◌>>=◌, >>=-eq-ok}
use imagegen_bridge.Core.Response.{ImageResponse}
use imagegen_bridge.Runtime.Fanout.Chunks.{ChunkResult, covers}
use imagegen_bridge.Runtime.Fanout.Merge.{all_images, all_failures}
use imagegen_bridge.Runtime.Fanout.Aggregate.{
  span, validate_chunk_indices, shift_image, shift_failure, shift_response, output_failure,
  Collected, collect_one, collect, join_collected,
}
use imagegen_bridge.Runtime.Fanout.Coverage.{
  hits, image_hits, failure_hits, span-wrapped, span-covers, validate_chunk_indices-sum,
}

-- The outputs that have an image or a failure.
abbrev pub collected_hits : ℕ → Collected → ℕ
collected_hits output c =
    image_hits output (all_images c.successful)
    + failure_hits output (all_failures c.successful)
    + failure_hits output c.failures

abbrev pub result_covers : ℕ → ChunkResult → ℕ
result_covers output r = covers output r.offset r.count

-- The outputs of a call have 8 bits.
abbrev pub IsSmall : ChunkResult → Type 0
IsSmall r = r.offset + r.count ≤ 256

shift_response-hits :
    (output offset elapsed_ms count : ℕ) (response : ImageResponse)
    → offset + count ≤ 256
    → validate_chunk_indices response offset count ≡ ok tt
    → collected_hits output
        (record { successful = shift_response offset elapsed_ms response ∷ []; failures = [] })
      ≡ covers output offset count
unfolding sum_of all_images all_failures
shift_response-hits output offset elapsed_ms count response small valid =
    let w : ℕ → ℕ = λ i. hits output (wrapping_add_u8 i offset) in
    let whole : offset + 0 + count ≤ 256 = ground (arith, small) in
    let from : offset + 0 ≡ offset = omega arith in
    let covered : sum_of w (span 0 count) ≡ covers output offset count =
      span-wrapped output offset 0 count whole ∙ ap (λ k. covers output k count) from in
    omega (
      arith,
      sum_of-append (λ image. hits output image.index)
          (map (shift_image offset elapsed_ms) response.images) [],
      sum_of-append (λ failure. hits output failure.index)
          (map (shift_failure offset) response.failures) [],
      sum_of-map (λ image. hits output image.index) (shift_image offset elapsed_ms) response.images,
      sum_of-map (λ failure. hits output failure.index) (shift_failure offset) response.failures,
      validate_chunk_indices-sum w response offset count valid,
      covered,
    )

collect_one-hits :
    (output : ℕ) (r : ChunkResult) (c : Collected)
    → IsSmall r
    → collect_one r ≡ ok c
    → collected_hits output c ≡ result_covers output r
unfolding collect_one sum_of all_images all_failures
collect_one-hits output r c small h = elim (Result-cases r.result) [
  | inl (response, e) ↦
      let made : Collected = record {
        successful = shift_response r.offset r.elapsed_ms response ∷ [];
        failures = [];
      } in
      elim (Result-cases (validate_chunk_indices response r.offset r.count)) [
        | inr (x, bad) ↦ let e' : collect_one r ≡ err x = rw (e, collect_one, bad) refl in absurd cc
        | inl (tt, valid) ↦
            let e' : collect_one r ≡ ok made = rw (e, collect_one, valid) refl in
            let same : made ≡ c = cc in
            subst (λ d. collected_hits output d ≡ result_covers output r) same
              (shift_response-hits output r.offset r.elapsed_ms r.count response small valid)
      ]
  | inr (x, e) ↦
      let made : Collected = record {
        successful = [];
        failures = map (output_failure x r.elapsed_ms) (span r.offset r.count);
      } in
      let e' : collect_one r ≡ ok made = rw (e, collect_one) refl in
      let same : made ≡ c = cc in
      subst (λ d. collected_hits output d ≡ result_covers output r) same
        (omega (
          arith,
          sum_of-map (λ failure. hits output failure.index) (output_failure x r.elapsed_ms)
              (span r.offset r.count),
          span-covers output r.offset r.count,
        ))
]

all_images-append :
    (output : ℕ) (xs ys : List ImageResponse)
    → image_hits output (all_images (xs ++ ys))
      ≡ image_hits output (all_images xs) + image_hits output (all_images ys)
unfolding all_images sum_of
all_images-append output [] ys = omega arith
all_images-append output (x ∷ xs) ys = omega (
  arith,
  all_images-append output xs ys,
  sum_of-append (λ image. hits output image.index) x.images (all_images (xs ++ ys)),
  sum_of-append (λ image. hits output image.index) x.images (all_images xs),
)

all_failures-append :
    (output : ℕ) (xs ys : List ImageResponse)
    → failure_hits output (all_failures (xs ++ ys))
      ≡ failure_hits output (all_failures xs) + failure_hits output (all_failures ys)
unfolding all_failures sum_of
all_failures-append output [] ys = omega arith
all_failures-append output (x ∷ xs) ys = omega (
  arith,
  all_failures-append output xs ys,
  sum_of-append (λ failure. hits output failure.index) x.failures (all_failures (xs ++ ys)),
  sum_of-append (λ failure. hits output failure.index) x.failures (all_failures xs),
)

join_collected-hits :
    (output : ℕ) (a b : Collected)
    → collected_hits output (join_collected a b) ≡ collected_hits output a + collected_hits output b
join_collected-hits output a b = omega (
  arith,
  all_images-append output a.successful b.successful,
  all_failures-append output a.successful b.successful,
  sum_of-append (λ failure. hits output failure.index) a.failures b.failures,
)

-- Every output of the calls has an image or a failure, as often as it is in a call.
pub collect-hits :
    (output : ℕ) (rs : List ChunkResult) (c : Collected)
    → All IsSmall rs
    → collect rs ≡ ok c
    → collected_hits output c ≡ sum_of (result_covers output) rs
unfolding collect sum_of all_images all_failures
collect-hits output [] c small h =
    let made : Collected = record { successful = []; failures = [] } in
    let same : made ≡ c = cc in subst (λ d. collected_hits output d ≡ 0) same refl
collect-hits output (r ∷ rs) c small h =
    let (one, made, rest_made) =
      >>=-eq-ok (collect_one r) (λ one. collect rs >>= λ rest. ok (join_collected one rest)) h in
    let (rest, made', joined) =
      >>=-eq-ok (collect rs) (λ rest. ok (join_collected one rest)) rest_made in
    let same : join_collected one rest ≡ c = cc in
    subst (λ d. collected_hits output d ≡ sum_of (result_covers output) (r ∷ rs)) same
      (omega (
        arith,
        join_collected-hits output one rest,
        collect_one-hits output r one small.0 made,
        collect-hits output rs rest small.1 made',
      ))
