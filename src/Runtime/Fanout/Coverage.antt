-- ===== src/Runtime/Fanout/Coverage.antt =====
-- The outputs that the responses and failures of crates/runtime/src/fanout/mod.rs account for.
pub mod Calls
pub mod Joined
use imagegen_bridge.Prelude.{
  ℕ, zero, suc, ◌+◌, ◌%◌, ◌≤◌, ◌<◌, ◌==◌, ◌≡◌, refl, sym, ap, ◌∙◌, subst, Bool, true, false, ◌&&◌,
  List, [], ◌∷◌, ◌++◌, map, if◌then◌else◌, leb, ltb, arith, sum_of, sum_of-append, sum_of-map,
  sum_of-sort_by_key, sort_by_key, Bool-cases, inl, inr, All, wrapping_add_u8,
}
use imagegen_bridge.Core.Error.{Result, Result-cases, ok, err, ◌>>=◌, ◌>>◌, >>=-eq-ok}
use imagegen_bridge.Core.Response.{GeneratedImage, ImageFailure, ImageResponse}
use imagegen_bridge.Runtime.Fanout.Chunks.{ChunkResult, covers}
use imagegen_bridge.Runtime.Fanout.Merge.{all_images, all_failures}
use imagegen_bridge.Runtime.Fanout.Aggregate.{
  span, numbers_eq, output_indices, validate_chunk_indices, shift_image, shift_failure,
  shift_response, output_failure, Collected, collect_one, collect, join_collected,
}

-- 1 for the output, 0 for another.
abbrev pub hits : ℕ → ℕ → ℕ
hits output index = if index == output then 1 else 0

abbrev pub image_hits : ℕ → List GeneratedImage → ℕ
image_hits output = sum_of (λ image. hits output image.index)

abbrev pub failure_hits : ℕ → List ImageFailure → ℕ
failure_hits output = sum_of (λ failure. hits output failure.index)

numbers_eq→≡ : (xs ys : List ℕ) → numbers_eq xs ys ≡ true → xs ≡ ys
unfolding numbers_eq
numbers_eq→≡ [] [] h = refl
numbers_eq→≡ [] (y ∷ ys) h = cc
numbers_eq→≡ (x ∷ xs) [] h = cc
numbers_eq→≡ (x ∷ xs) (y ∷ ys) h = ground (arith, numbers_eq→≡ xs ys, h)

-- The indices from 0 on, moved by the offset.
pub span-wrapped :
    (output offset start count : ℕ)
    → offset + start + count ≤ 256
    → sum_of (λ i. hits output (wrapping_add_u8 i offset)) (span start count)
      ≡ covers output (offset + start) count
unfolding sum_of span
span-wrapped output offset start zero h = ground arith
span-wrapped output offset start (suc count) h =
    ground (arith, h, span-wrapped output offset (suc start) count)

pub span-covers :
    (output start count : ℕ) → sum_of (hits output) (span start count) ≡ covers output start count
unfolding sum_of span
span-covers output start zero = ground arith
span-covers output start (suc count) = ground (arith, span-covers output (suc start) count)

-- Indices that are a permutation of those of the call.
pub validate_chunk_indices-sum :
    (w : ℕ → ℕ) (response : ImageResponse) (offset count : ℕ)
    → validate_chunk_indices response offset count ≡ ok tt
    → sum_of (λ image. w image.index) response.images
        + sum_of (λ failure. w failure.index) response.failures
      ≡ sum_of w (span 0 count)
unfolding validate_chunk_indices
validate_chunk_indices-sum w response offset count h =
    elim (Bool-cases (numbers_eq (sort_by_key (λ i. i) (output_indices response)) (span 0 count))) [
      | inr bad ↦ absurd ground (arith, h, bad)
      | inl same ↦
          let sorted =
            numbers_eq→≡ (sort_by_key (λ i. i) (output_indices response)) (span 0 count) same in
          omega (
            arith,
            sum_of-map w (λ image. image.index) response.images,
            sum_of-map w (λ failure. failure.index) response.failures,
            sum_of-append w (map (λ image. image.index) response.images)
                (map (λ failure. failure.index) response.failures),
            sum_of-sort_by_key w (λ i. i) (output_indices response),
            ap (sum_of w) sorted,
          )
    ]
