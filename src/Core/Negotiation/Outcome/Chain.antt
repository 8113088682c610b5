-- ===== src/Core/Negotiation/Outcome/Chain.antt =====
-- The fields after the first stages of crates/core/src/negotiation.rs, backwards from the later ones.
use imagegen_bridge.Prelude.{◌≤◌, ◌≡◌, false, []}
use imagegen_bridge.Core.Error.{ok}
use imagegen_bridge.Core.Request.{ImageRequest}
use imagegen_bridge.Core.Parameters.{default_size}
use imagegen_bridge.Core.Parameters.Wire.{
  contains, quality_wire, output_format_wire, background_wire, moderation_wire, image_action_wire,
  size_wire,
}
use imagegen_bridge.Core.Capabilities.{Floats, ProviderCapabilities}
use imagegen_bridge.Core.Negotiation.{stages}
use imagegen_bridge.Core.Negotiation.Recording.{Draft}
use imagegen_bridge.Core.Negotiation.Stages.{
  negotiate_action, negotiate_count, negotiate_aspect_ratio, negotiate_resolution,
}
use imagegen_bridge.Core.Negotiation.SizeStage.{negotiate_size}
use imagegen_bridge.Core.Negotiation.Choice.{
  set_action, set_n, set_size, set_aspect_ratio, set_resolution,
}
use imagegen_bridge.Core.Negotiation.Choice.Counts.{
  action-Stage, count-Stage, aspect_ratio-Stage, resolution-Stage,
}
use imagegen_bridge.Core.Negotiation.Choice.Rest.{size-Stage}
use imagegen_bridge.Core.Negotiation.Outcome.{
  Since, Stage-Field, mentions-left, mentions-right, advance, after,
}
use imagegen_bridge.Core.Negotiation.Outcome.Fields.{
  ActionKeeps, NKeeps, SizeKeeps, AspectRatioKeeps, ResolutionKeeps,
}
use imagegen_bridge.Core.Negotiation.Outcome.Tails.{
  ActionRest, NRest, SizeRest, AspectRatioRest, ResolutionRest, action_to_end, n_to_end,
  size_to_end, aspect_ratio_to_end, resolution_to_end, quality_to_end,
}
use imagegen_bridge.Core.Negotiation.Outcome.Late.{quality-Since}

module _ {F : Type 0} ⦃fl : Floats F⦄ (c : ProviderCapabilities F)
    (ordered : (c.count.min ≤ c.count.max) × (c.partial_images.min ≤ c.partial_images.max))
    (no_auto : contains c.sizes.allowed default_size ≡ false) where
  resolution-Since :
      (x d' : Draft)
      → resolution_to_end c x ≡ ok d'
      → Since
          (ResolutionRest c x.request d')
          (ResolutionKeeps x.request.parameters d'.request.parameters)
          x
          d'
  resolution-Since x d' h =
      let (e, s, then_rest) =
        advance (negotiate_resolution c) (quality_to_end c) x d' (resolution-Stage c x) h in
      let i = quality-Since c ordered.1 (after set_resolution x s.value s.more) d' then_rest in
      record {
        rest = (
          Stage-Field s i.keeps.0 (λ m.
              i.grows "parameters.resolution"
                (mentions-right "parameters.resolution" x.normalizations s.more m)),
          i.rest,
        );
        keeps = i.keeps.1;
        untouched = i.untouched;
        grows = λ f m. i.grows f (mentions-left f x.normalizations s.more m);
      }

  aspect_ratio-Since :
      (x d' : Draft)
      → aspect_ratio_to_end c x ≡ ok d'
      → Since
          (AspectRatioRest c x.request d')
          (AspectRatioKeeps x.request.parameters d'.request.parameters)
          x
          d'
  aspect_ratio-Since x d' h =
      let (e, s, then_rest) =
        advance (negotiate_aspect_ratio c) (resolution_to_end c) x d' (aspect_ratio-Stage c x) h in
      let i = resolution-Since (after set_aspect_ratio x s.value s.more) d' then_rest in
      record {
        rest = (
          Stage-Field s i.keeps.0 (λ m.
              i.grows "parameters.aspect_ratio"
                (mentions-right "parameters.aspect_ratio" x.normalizations s.more m)),
          i.rest,
        );
        keeps = i.keeps.1;
        untouched = i.untouched;
        grows = λ f m. i.grows f (mentions-left f x.normalizations s.more m);
      }

  size-Since :
      (x d' : Draft)
      → size_to_end c x ≡ ok d'
      → Since (SizeRest c x.request d') (SizeKeeps x.request.parameters d'.request.parameters) x d'
  size-Since x d' h =
      let (e, s, then_rest) =
        advance (negotiate_size c) (aspect_ratio_to_end c) x d' (λ e. size-Stage c x e no_auto) h in
      let i = aspect_ratio-Since (after set_size x s.value s.more) d' then_rest in
      record {
        rest = (
          Stage-Field s i.keeps.0 (λ m.
              i.grows "parameters.size"
                (mentions-right "parameters.size" x.normalizations s.more m)),
          i.rest,
        );
        keeps = i.keeps.1;
        untouched = i.untouched;
        grows = λ f m. i.grows f (mentions-left f x.normalizations s.more m);
      }

  n-Since :
      (x d' : Draft)
      → n_to_end c x ≡ ok d'
      → Since (NRest c x.request d') (NKeeps x.request.parameters d'.request.parameters) x d'
  n-Since x d' h =
      let (e, s, then_rest) =
        advance (negotiate_count c) (size_to_end c) x d' (λ e. count-Stage c x e ordered.0) h in
      let i = size-Since (after set_n x s.value s.more) d' then_rest in
      record {
        rest = (
          Stage-Field s i.keeps.0 (λ m.
              i.grows "parameters.n" (mentions-right "parameters.n" x.normalizations s.more m)),
          i.rest,
        );
        keeps = i.keeps.1;
        untouched = i.untouched;
        grows = λ f m. i.grows f (mentions-left f x.normalizations s.more m);
      }

  action-Since :
      (x d' : Draft)
      → action_to_end c x ≡ ok d'
      → Since
          (ActionRest c x.request d')
          (ActionKeeps x.request.parameters d'.request.parameters)
          x
          d'
  action-Since x d' h =
      let (e, s, then_rest) = advance (negotiate_action c) (n_to_end c) x d' (action-Stage c x) h in
      let i = n-Since (after set_action x s.value s.more) d' then_rest in
      record {
        rest = (
          Stage-Field s i.keeps.0 (λ m.
              i.grows "parameters.action"
                (mentions-right "parameters.action" x.normalizations s.more m)),
          i.rest,
        );
        keeps = i.keeps.1;
        untouched = i.untouched;
        grows = λ f m. i.grows f (mentions-left f x.normalizations s.more m);
      }

  pub stages-Since :
      (r : ImageRequest) (d' : Draft)
      → stages c (record { request = r; normalizations = [] }) ≡ ok d'
      → Since (ActionRest c r d') (Unit {0}) (record { request = r; normalizations = [] }) d'
  unfolding stages
  stages-Since r d' h = action-Since (record { request = r; normalizations = [] }) d' h
