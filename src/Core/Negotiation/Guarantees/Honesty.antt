-- ===== src/Core/Negotiation/Guarantees/Honesty.antt =====
-- The list of normalizations that `negotiate_request` of crates/core/src/negotiation.rs returns, and
-- the strict mode.
use imagegen_bridge.Prelude.{String, ◌≡◌, refl, ◌⊎◌, true, false, Option, List}
use imagegen_bridge.Core.Error.{ok}
use imagegen_bridge.Core.Request.{ImageRequest, GenerationParameters}
use imagegen_bridge.Core.Parameters.{default_size}
use imagegen_bridge.Core.Parameters.Wire.{contains, size_wire}
use imagegen_bridge.Core.Capabilities.{Floats, ProviderCapabilities}
use imagegen_bridge.Core.Negotiation.{NegotiatedRequest, negotiate_request}
use imagegen_bridge.Core.Negotiation.Recording.{is_strict}
use imagegen_bridge.Core.Response.{Normalization}
use imagegen_bridge.Core.Negotiation.Choice.{mentions}
use imagegen_bridge.Core.Negotiation.Guarantees.{negotiated-Since}

-- The value of a field is the requested one, or the list has an entry for the field.
abbrev Honest : {A : Type 0} → String → List Normalization → A → A → Type 0
Honest field ns old new = (new ≡ old) ⊎ (mentions field ns ≡ true)

-- No parameter and no prompt differs from what was asked for without an entry in the list.
pub record Reported (p : GenerationParameters) (asked : String × Option String)
    (m : NegotiatedRequest) : Type 0 where
  pub action :
      Honest "parameters.action" m.normalizations p.action m.effective_request.parameters.action
  pub n : Honest "parameters.n" m.normalizations p.n m.effective_request.parameters.n
  pub size : Honest "parameters.size" m.normalizations p.size m.effective_request.parameters.size
  pub aspect_ratio :
      Honest "parameters.aspect_ratio" m.normalizations p.aspect_ratio
        m.effective_request.parameters.aspect_ratio
  pub resolution :
      Honest "parameters.resolution" m.normalizations p.resolution
        m.effective_request.parameters.resolution
  pub quality :
      Honest "parameters.quality" m.normalizations p.quality m.effective_request.parameters.quality
  pub output_format :
      Honest "parameters.output_format" m.normalizations p.output_format
        m.effective_request.parameters.output_format
  pub output_compression :
      Honest "parameters.output_compression" m.normalizations p.output_compression
        m.effective_request.parameters.output_compression
  pub background :
      Honest "parameters.background" m.normalizations p.background
        m.effective_request.parameters.background
  pub moderation :
      Honest "parameters.moderation" m.normalizations p.moderation
        m.effective_request.parameters.moderation
  pub partial_images :
      Honest "parameters.partial_images" m.normalizations p.partial_images
        m.effective_request.parameters.partial_images
  pub prompts :
      Honest "negative_prompt" m.normalizations asked
        (m.effective_request.prompt, m.effective_request.negative_prompt)

-- The parameters that the negotiation may change, other than the action.
pub record SameParameters (p p' : GenerationParameters) : Type 0 where
  pub n : p'.n ≡ p.n
  pub size : p'.size ≡ p.size
  pub aspect_ratio : p'.aspect_ratio ≡ p.aspect_ratio
  pub resolution : p'.resolution ≡ p.resolution
  pub quality : p'.quality ≡ p.quality
  pub output_format : p'.output_format ≡ p.output_format
  pub output_compression : p'.output_compression ≡ p.output_compression
  pub background : p'.background ≡ p.background
  pub moderation : p'.moderation ≡ p.moderation
  pub partial_images : p'.partial_images ≡ p.partial_images

module _ {F : Type 0} ⦃fl : Floats F⦄ (c : ProviderCapabilities F) (r : ImageRequest)
    (n : NegotiatedRequest) (no_auto : contains c.sizes.allowed default_size ≡ false) where
  -- Every field that the negotiation changed has an entry in the returned list of normalizations,
  -- when the provider does not list the size `auto` among its explicit sizes.
  pub negotiate_request-Reported :
      negotiate_request r c ≡ ok n → Reported r.parameters (r.prompt, r.negative_prompt) n
  negotiate_request-Reported h =
      let i = negotiated-Since c r n no_auto h in
      let (
        action,
        (
          count,
          (
            size,
            (
              aspect_ratio,
              (
                resolution,
                (
                  quality,
                  (
                    output_format,
                    (compression, (background, (moderation, (partial_images, prompts)))),
                  ),
                ),
              ),
            ),
          ),
        ),
      ) =
        i.rest in
      record {
        action = action.told;
        n = count.told;
        size = size.told;
        aspect_ratio = aspect_ratio.told;
        resolution = resolution.told;
        quality = quality.told;
        output_format = output_format.told;
        output_compression = compression.told;
        background = background.told;
        moderation = moderation.told;
        partial_images = partial_images.told;
        prompts = prompts.told;
      }

  -- A strict request comes out with the parameters it asked for, the action excepted, when the
  -- provider does not list the size `auto` among its explicit sizes.
  pub negotiate_request-strict :
      is_strict r.policies.compatibility ≡ true
      → negotiate_request r c ≡ ok n
      → SameParameters r.parameters n.effective_request.parameters
  negotiate_request-strict strict h =
      let i = negotiated-Since c r n no_auto h in
      let (
        action,
        (
          count,
          (
            size,
            (
              aspect_ratio,
              (
                resolution,
                (
                  quality,
                  (
                    output_format,
                    (compression, (background, (moderation, (partial_images, prompts)))),
                  ),
                ),
              ),
            ),
          ),
        ),
      ) =
        i.rest in
      record {
        n = count.kept refl strict;
        size = size.kept refl strict;
        aspect_ratio = aspect_ratio.kept refl strict;
        resolution = resolution.kept refl strict;
        quality = quality.kept refl strict;
        output_format = output_format.kept refl strict;
        output_compression = compression.kept refl strict;
        background = background.kept refl strict;
        moderation = moderation.kept refl strict;
        partial_images = partial_images.kept refl strict;
      }
