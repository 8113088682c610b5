-- ===== src/Core/Negotiation/Outcome/Late.antt =====
-- The fields after the later stages of crates/core/src/negotiation.rs, backwards from the last one.
use imagegen_bridge.Prelude.{◌≤◌, ◌≡◌, refl, sym, subst, true, false, ◌&&◌, not, is_some}
use imagegen_bridge.Core.Error.{ok}
use imagegen_bridge.Core.Parameters.Wire.{
  quality_wire, output_format_wire, background_wire, moderation_wire, image_action_wire, size_wire,
}
use imagegen_bridge.Core.Capabilities.{Floats, ProviderCapabilities}
use imagegen_bridge.Core.Negotiation.Recording.{Draft, compresses}
use imagegen_bridge.Core.Negotiation.Stages.{negotiate_partial_images}
use imagegen_bridge.Core.Negotiation.Values.{
  negotiate_quality, negotiate_output_format, negotiate_compression, negotiate_background,
  negotiate_moderation,
}
use imagegen_bridge.Core.Negotiation.Choice.{
  set_quality, set_output_format, set_output_compression, set_background, set_moderation,
  set_partial_images,
}
use imagegen_bridge.Core.Negotiation.Choice.Counts.{partial_images-Stage}
use imagegen_bridge.Core.Negotiation.Choice.Listed.{
  quality-Stage, output_format-Stage, compression-Stage, background-Stage, moderation-Stage,
}
use imagegen_bridge.Core.Negotiation.Choice.Rest.{prompt-Stage}
use imagegen_bridge.Core.Negotiation.Outcome.{
  Field, Since, Stage-Field, mentions-left, mentions-right, advance, after,
}
use imagegen_bridge.Core.Negotiation.Outcome.Fields.{
  QualityKeeps, OutputFormatKeeps, OutputCompressionKeeps, BackgroundKeeps, ModerationKeeps,
  PartialImagesKeeps, PromptsKeeps,
}
use imagegen_bridge.Core.Negotiation.Outcome.Tails.{
  QualityRest, OutputFormatRest, OutputCompressionRest, BackgroundRest, ModerationRest,
  PartialImagesRest, PromptsRest, quality_to_end, output_format_to_end, output_compression_to_end,
  background_to_end, moderation_to_end, partial_images_to_end, prompts_to_end,
}

module _ {F : Type 0} ⦃fl : Floats F⦄ (c : ProviderCapabilities F)
    (ordered : c.partial_images.min ≤ c.partial_images.max) where
  prompts-Since :
      (x d' : Draft)
      → prompts_to_end c x ≡ ok d'
      → Since
          (PromptsRest c x.request d')
          (PromptsKeeps x.request.parameters d'.request.parameters)
          x
          d'
  prompts-Since x d' h =
      let s = prompt-Stage c x d' h in
      subst
        (λ e.
          Since (PromptsRest c x.request e) (PromptsKeeps x.request.parameters e.request.parameters)
            x e)
        (sym s.result)
        (record {
          rest =
              Stage-Field s refl (λ m. mentions-right "negative_prompt" x.normalizations s.more m);
          keeps = (
            refl,
            (refl, (refl, (refl, (refl, (refl, (refl, (refl, (refl, (refl, (refl, tt)))))))))),
          );
          untouched = (refl, refl, refl, refl, refl, refl, refl, refl, refl, refl, refl);
          grows = λ f m. mentions-left f x.normalizations s.more m;
        })

  partial_images-Since :
      (x d' : Draft)
      → partial_images_to_end c x ≡ ok d'
      → Since
          (PartialImagesRest c x.request d')
          (PartialImagesKeeps x.request.parameters d'.request.parameters)
          x
          d'
  partial_images-Since x d' h =
      let (e, s, then_rest) =
        advance (negotiate_partial_images c) (prompts_to_end c) x d'
          (λ e. partial_images-Stage c x e ordered) h in
      let i = prompts-Since (after set_partial_images x s.value s.more) d' then_rest in
      record {
        rest = (
          Stage-Field s i.keeps.0 (λ m.
              i.grows "parameters.partial_images"
                (mentions-right "parameters.partial_images" x.normalizations s.more m)),
          i.rest,
        );
        keeps = i.keeps.1;
        untouched = i.untouched;
        grows = λ f m. i.grows f (mentions-left f x.normalizations s.more m);
      }

  moderation-Since :
      (x d' : Draft)
      → moderation_to_end c x ≡ ok d'
      → Since
          (ModerationRest c x.request d')
          (ModerationKeeps x.request.parameters d'.request.parameters)
          x
          d'
  moderation-Since x d' h =
      let (e, s, then_rest) =
        advance (negotiate_moderation c) (partial_images_to_end c) x d' (moderation-Stage c x) h in
      let i = partial_images-Since (after set_moderation x s.value s.more) d' then_rest in
      record {
        rest = (
          Stage-Field s i.keeps.0 (λ m.
              i.grows "parameters.moderation"
                (mentions-right "parameters.moderation" x.normalizations s.more m)),
          i.rest,
        );
        keeps = i.keeps.1;
        untouched = i.untouched;
        grows = λ f m. i.grows f (mentions-left f x.normalizations s.more m);
      }

  background-Since :
      (x d' : Draft)
      → background_to_end c x ≡ ok d'
      → Since
          (BackgroundRest c x.request d')
          (BackgroundKeeps x.request.parameters d'.request.parameters)
          x
          d'
  background-Since x d' h =
      let (e, s, then_rest) =
        advance (negotiate_background c) (moderation_to_end c) x d' (background-Stage c x) h in
      let i = moderation-Since (after set_background x s.value s.more) d' then_rest in
      record {
        rest = (
          Stage-Field s i.keeps.0 (λ m.
              i.grows "parameters.background"
                (mentions-right "parameters.background" x.normalizations s.more m)),
          i.rest,
        );
        keeps = i.keeps.1;
        untouched = i.untouched;
        grows = λ f m. i.grows f (mentions-left f x.normalizations s.more m);
      }

  output_compression-Since :
      (x d' : Draft)
      → output_compression_to_end c x ≡ ok d'
      → Since
          (OutputCompressionRest c x.request d')
          (OutputCompressionKeeps x.request.parameters d'.request.parameters)
          x
          d'
  output_compression-Since x d' h =
      let (e, s, then_rest) =
        advance (negotiate_compression c) (background_to_end c) x d' (compression-Stage c x) h in
      let i = background-Since (after set_output_compression x s.value s.more) d' then_rest in
      record {
        rest = (
          subst
              (λ fmt.
                Field true (λ v. (is_some v && not (compresses fmt)) ≡ false)
                  "parameters.output_compression" x.request.policies.compatibility d'.normalizations
                  x.request.parameters.output_compression d'.request.parameters.output_compression)
              (sym i.keeps.1.0)
              (Stage-Field s i.keeps.0 (λ m.
                i.grows "parameters.output_compression"
                  (mentions-right "parameters.output_compression" x.normalizations s.more m))),
          i.rest,
        );
        keeps = i.keeps.1;
        untouched = i.untouched;
        grows = λ f m. i.grows f (mentions-left f x.normalizations s.more m);
      }

  output_format-Since :
      (x d' : Draft)
      → output_format_to_end c x ≡ ok d'
      → Since
          (OutputFormatRest c x.request d')
          (OutputFormatKeeps x.request.parameters d'.request.parameters)
          x
          d'
  output_format-Since x d' h =
      let (e, s, then_rest) =
        advance (negotiate_output_format c) (output_compression_to_end c) x d'
          (output_format-Stage c x) h in
      let i = output_compression-Since (after set_output_format x s.value s.more) d' then_rest in
      record {
        rest = (
          Stage-Field s i.keeps.0 (λ m.
              i.grows "parameters.output_format"
                (mentions-right "parameters.output_format" x.normalizations s.more m)),
          i.rest,
        );
        keeps = i.keeps.1;
        untouched = i.untouched;
        grows = λ f m. i.grows f (mentions-left f x.normalizations s.more m);
      }

  pub quality-Since :
      (x d' : Draft)
      → quality_to_end c x ≡ ok d'
      → Since
          (QualityRest c x.request d')
          (QualityKeeps x.request.parameters d'.request.parameters)
          x
          d'
  quality-Since x d' h =
      let (e, s, then_rest) =
        advance (negotiate_quality c) (output_format_to_end c) x d' (quality-Stage c x) h in
      let i = output_format-Since (after set_quality x s.value s.more) d' then_rest in
      record {
        rest = (
          Stage-Field s i.keeps.0 (λ m.
              i.grows "parameters.quality"
                (mentions-right "parameters.quality" x.normalizations s.more m)),
          i.rest,
        );
        keeps = i.keeps.1;
        untouched = i.untouched;
        grows = λ f m. i.grows f (mentions-left f x.normalizations s.more m);
      }
