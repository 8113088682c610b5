-- ===== src/Runtime/Fanout/Coverage/Joined.antt =====
-- The outputs that the response of crates/runtime/src/fanout/mod.rs accounts for.
use imagegen_bridge.Prelude.{
  ℕ, ◌+◌, ◌≡◌, sym, ap, subst, false, List, [], ◌++◌, String, arith, sum_of, sum_of-append,
  sum_of-sort_by_key, sort_by_key, sort_by_key-Ascending, Ascending, Bool-cases, List-cases, inl,
  inr, All,
}
use imagegen_bridge.Core.Error.{ok, >>=-eq-ok}
use imagegen_bridge.Core.Request.{ImageRequest}
use imagegen_bridge.Core.Response.{ImageResponse}
use imagegen_bridge.Runtime.Fanout.Chunks.{ChunkResult}
use imagegen_bridge.Runtime.Fanout.Merge.{same_identity, all_images, all_failures}
use imagegen_bridge.Runtime.Fanout.Aggregate.{
  Readings, Collected, collect, combine, summarize, aggregate, is_best_effort,
}
use imagegen_bridge.Runtime.Fanout.Coverage.{hits, image_hits, failure_hits}
use imagegen_bridge.Runtime.Fanout.Coverage.Calls.{result_covers, IsSmall, collect-hits}

-- What a response of the batch owes to the collected ones.
record IsJoined (request : ImageRequest) (c : Collected) (response : ImageResponse) : Type 0 where
  images : response.images ≡ sort_by_key (λ image. image.index) (all_images c.successful)
  failures :
      response.failures
      ≡ sort_by_key (λ failure. failure.index) (c.failures ++ all_failures c.successful)
  fast : is_best_effort request.parameters.failure_policy ≡ false → response.failures ≡ []

module _ (request : ImageRequest) (request_id : String) (readings : Readings) where
  combine-IsJoined :
      (first : ImageResponse) (c : Collected) (response : ImageResponse)
      → combine request request_id readings first c ≡ ok response
      → IsJoined request c response
  unfolding combine
  combine-IsJoined first c response h =
      let failures =
        sort_by_key (λ failure. failure.index) (c.failures ++ all_failures c.successful) in
      elim (List-cases failures) [
        | inl e ↦ record {
          images = ground (arith, h, e);
          failures = ground (arith, h, e);
          fast = λ f. ground (arith, h, e);
        }
        | inr (x, xs, e) ↦ elim (Bool-cases (is_best_effort request.parameters.failure_policy)) [
          | inl best ↦ record {
            images = ground (arith, h, e, best);
            failures = ground (arith, h, e, best);
            fast = λ f. cc;
          }
          | inr fast ↦ absurd ground (arith, h, e, fast)
        ]
      ]

  summarize-IsJoined :
      (n : ℕ) (c : Collected) (response : ImageResponse)
      → summarize request request_id n readings c ≡ ok response
      → IsJoined request c response
  unfolding summarize
  summarize-IsJoined n c response h = elim (List-cases c.successful) [
    | inl e ↦ absurd ground (arith, h, e)
    | inr (first, rest, e) ↦ elim (Bool-cases (same_identity first rest)) [
      | inl same ↦ combine-IsJoined first c response (ground (arith, h, e, same))
      | inr other ↦ absurd ground (arith, h, e, other)
    ]
  ]

  -- Each output has as many images and failures as there are calls for it.
  pub aggregate-hits :
      (n output : ℕ) (results : List ChunkResult) (response : ImageResponse)
      → All IsSmall results
      → aggregate request request_id n readings results ≡ ok response
      → image_hits output response.images + failure_hits output response.failures
        ≡ sum_of (result_covers output) results
  unfolding aggregate
  aggregate-hits n output results response small h =
      let (c, made, joined) =
        >>=-eq-ok (collect results) (summarize request request_id n readings) h in
      let j = summarize-IsJoined n c response joined in
      omega (
        arith,
        ap (image_hits output) j.images,
        ap (failure_hits output) j.failures,
        sum_of-sort_by_key (λ image. hits output image.index) (λ image. image.index)
            (all_images c.successful),
        sum_of-sort_by_key (λ failure. hits output failure.index) (λ failure. failure.index)
            (c.failures ++ all_failures c.successful),
        sum_of-append (λ failure. hits output failure.index) c.failures (all_failures c.successful),
        collect-hits output results c small made,
      )

  pub aggregate-fast :
      (n : ℕ) (results : List ChunkResult) (response : ImageResponse)
      → is_best_effort request.parameters.failure_policy ≡ false
      → aggregate request request_id n readings results ≡ ok response
      → response.failures ≡ []
  unfolding aggregate
  aggregate-fast n results response fast h =
      let (c, made, joined) =
        >>=-eq-ok (collect results) (summarize request request_id n readings) h in
      (summarize-IsJoined n c response joined).fast fast

  pub aggregate-Ascending :
      (n : ℕ) (results : List ChunkResult) (response : ImageResponse)
      → aggregate request request_id n readings results ≡ ok response
      → Ascending (λ image. image.index) response.images
  unfolding aggregate
  aggregate-Ascending n results response h =
      let (c, made, joined) =
        >>=-eq-ok (collect results) (summarize request request_id n readings) h in
      subst (Ascending (λ image. image.index)) (sym (summarize-IsJoined n c response joined).images)
        (sort_by_key-Ascending (λ image. image.index) (all_images c.successful))
