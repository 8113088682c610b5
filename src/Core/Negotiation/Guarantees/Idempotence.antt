-- ===== src/Core/Negotiation/Guarantees/Idempotence.antt =====
-- `negotiate_request` of crates/core/src/negotiation.rs on a request that the provider can serve.
use imagegen_bridge.Prelude.{String, ◌≡◌, refl, ◌∙◌, false, Option, none, some, []}
use imagegen_bridge.Core.Error.{ok}
use imagegen_bridge.Core.Request.{ImageRequest}
use imagegen_bridge.Core.Parameters.{default_size}
use imagegen_bridge.Core.Parameters.Wire.{contains, size_wire}
use imagegen_bridge.Core.Capabilities.{Floats, ProviderCapabilities}
use imagegen_bridge.Core.Negotiation.{
  NegotiatedRequest, checks, stages, revised_check, negotiate_request,
}
use imagegen_bridge.Core.Negotiation.Checks.{
  check_model, check_operation, check_input_counts, check_sessions, check_user_attribution,
  check_input_fidelity,
}
use imagegen_bridge.Core.Negotiation.Recording.{Draft}
use imagegen_bridge.Core.Negotiation.Stages.{
  negotiate_action, negotiate_count, negotiate_aspect_ratio, negotiate_resolution,
  negotiate_partial_images,
}
use imagegen_bridge.Core.Negotiation.Values.{
  negotiate_quality, negotiate_output_format, negotiate_compression, negotiate_background,
  negotiate_moderation,
}
use imagegen_bridge.Core.Negotiation.SizeStage.{negotiate_size}
use imagegen_bridge.Core.Negotiation.Prompt.{negotiate_negative_prompt}
use imagegen_bridge.Core.Negotiation.Choice.Rest.{Consumed}
use imagegen_bridge.Core.Negotiation.Outcome.{Untouched}
use imagegen_bridge.Core.Negotiation.Guarantees.{
  Accepts, negotiated, negotiate_request-Accepts, negotiate_request-Untouched,
}

module _ {F : Type 0} ⦃fl : Floats F⦄ (c : ProviderCapabilities F) where
  module _ (d : Draft) (a : Accepts c d.request) where
    values_stay :
        (negotiate_quality c d ≡ ok d)
        × (negotiate_output_format c d ≡ ok d)
        × (negotiate_background c d ≡ ok d)
        × (negotiate_moderation c d ≡ ok d)
        × (negotiate_compression c d ≡ ok d)
    unfolding negotiate_quality negotiate_output_format negotiate_background negotiate_moderation
        negotiate_compression
    values_stay = (
      rw a.quality refl,
      rw a.output_format refl,
      rw a.background refl,
      rw a.moderation refl,
      rw a.output_compression refl,
    )

    counts_stay :
        (negotiate_action c d ≡ ok d)
        × (negotiate_count c d ≡ ok d)
        × (negotiate_size c d ≡ ok d)
        × (negotiate_aspect_ratio c d ≡ ok d)
        × (negotiate_resolution c d ≡ ok d)
        × (negotiate_partial_images c d ≡ ok d)
    unfolding negotiate_action negotiate_count negotiate_size negotiate_aspect_ratio
        negotiate_resolution negotiate_partial_images
    counts_stay = (
      rw a.action refl,
      rw a.n refl,
      rw a.size refl,
      rw a.aspect_ratio refl,
      rw a.resolution refl,
      rw a.partial_images refl,
    )

  stays-Consumed :
      (d : Draft) (o : Option String)
      → d.request.negative_prompt ≡ o
      → Consumed c d.request.policies.negative_prompt o
      → negotiate_negative_prompt c d ≡ ok d
  unfolding negotiate_negative_prompt
  stays-Consumed d none e h = rw e refl
  stays-Consumed d (some s) e h = rw (e, h) refl

  stages_stay : (d : Draft) → Accepts c d.request → stages c d ≡ ok d
  unfolding stages
  stages_stay d a =
      let (quality, output_format, background, moderation, compression) = values_stay d a in
      let (action, count, size, aspect_ratio, resolution, partial_images) = counts_stay d a in
      rw
        (
          action, count, size, aspect_ratio, resolution, quality, output_format, compression,
          background, moderation, partial_images,
        )
        (stays-Consumed d d.request.negative_prompt refl a.negative_prompt)

  -- A request that passes the checks and that the provider can serve is returned as it is, with
  -- nothing recorded, in every mode.
  negotiate_request_accepted :
      (r : ImageRequest)
      → checks r c ≡ ok tt
      → revised_check r c ≡ ok tt
      → Accepts c r
      → negotiate_request r c
        ≡ ok (record { requested = r.parameters; effective_request = r; normalizations = [] })
  unfolding negotiate_request
  negotiate_request_accepted r checked revised a =
      rw (checked, stages_stay (record { request = r; normalizations = [] }) a, revised) refl

  checks-Untouched :
      (r r' : ImageRequest)
      → Untouched r r'
      → (checks r' c ≡ checks r c) × (revised_check r' c ≡ revised_check r c)
  unfolding checks revised_check check_model check_operation check_input_counts check_sessions
      check_user_attribution check_input_fidelity
  checks-Untouched r r' u =
      let (
        version, operation, routing, session, output, policies, key, timeout, user, failure,
        fidelity,
      ) =
        u in
      (rw (operation, routing, session, user, fidelity) refl, rw policies refl)

  -- Negotiating an effective request again gives the same request, with nothing recorded, when the
  -- provider does not list the size `auto` among its explicit sizes.
  pub negotiate_request_again :
      (r : ImageRequest) (n : NegotiatedRequest)
      → contains c.sizes.allowed default_size ≡ false
      → negotiate_request r c ≡ ok n
      → negotiate_request n.effective_request c
        ≡ ok (record {
          requested = n.effective_request.parameters;
          effective_request = n.effective_request;
          normalizations = [];
        })
  negotiate_request_again r n no_auto h =
      let (checked, staged, revised, kept) = negotiated c r n h in
      let (u, kept') = negotiate_request-Untouched c r n no_auto h in
      let (same, same') = checks-Untouched r n.effective_request u in
      negotiate_request_accepted n.effective_request (same ∙ checked) (same' ∙ revised)
        (negotiate_request-Accepts c r n no_auto h)
