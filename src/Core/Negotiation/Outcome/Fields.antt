-- ===== src/Core/Negotiation/Outcome/Fields.antt =====
-- What the stages of crates/core/src/negotiation.rs made of each field, from any stage to the last one.
use imagegen_bridge.Prelude.{String, ◌≡◌, true, false, ◌&&◌, not, Option, is_some}
use imagegen_bridge.Core.Request.{ImageRequest, GenerationParameters}
use imagegen_bridge.Core.Parameters.Wire.{
  contains, quality_wire, output_format_wire, background_wire, moderation_wire, image_action_wire,
}
use imagegen_bridge.Core.Capabilities.{Floats, ProviderCapabilities, in_range, is_unsupported}
use imagegen_bridge.Core.Negotiation.Recording.{Draft, compresses}
use imagegen_bridge.Core.Negotiation.SizeStage.{size_supported}
use imagegen_bridge.Core.Negotiation.Choice.Rest.{Consumed}
use imagegen_bridge.Core.Negotiation.Outcome.{Field}

module _ {F : Type 0} ⦃fl : Floats F⦄ (c : ProviderCapabilities F) where
  abbrev pub ActionField : ImageRequest → Draft → Type 0
  ActionField r d' =
      Field false (λ a. contains c.actions a ≡ true) "parameters.action" r.policies.compatibility
        d'.normalizations r.parameters.action d'.request.parameters.action

  abbrev pub NField : ImageRequest → Draft → Type 0
  NField r d' =
      Field true (λ v. in_range c.count v ≡ true) "parameters.n" r.policies.compatibility
        d'.normalizations r.parameters.n d'.request.parameters.n

  abbrev pub SizeField : ImageRequest → Draft → Type 0
  SizeField r d' =
      Field true (λ v. size_supported v c ≡ true) "parameters.size" r.policies.compatibility
        d'.normalizations r.parameters.size d'.request.parameters.size

  abbrev pub AspectRatioField : ImageRequest → Draft → Type 0
  AspectRatioField r d' =
      Field true (λ v. (is_some v && is_unsupported c.aspect_ratio) ≡ false)
        "parameters.aspect_ratio" r.policies.compatibility d'.normalizations
        r.parameters.aspect_ratio d'.request.parameters.aspect_ratio

  abbrev pub ResolutionField : ImageRequest → Draft → Type 0
  ResolutionField r d' =
      Field true (λ v. (is_some v && is_unsupported c.resolution) ≡ false) "parameters.resolution"
        r.policies.compatibility d'.normalizations r.parameters.resolution
        d'.request.parameters.resolution

  abbrev pub QualityField : ImageRequest → Draft → Type 0
  QualityField r d' =
      Field true (λ v. contains c.qualities v ≡ true) "parameters.quality" r.policies.compatibility
        d'.normalizations r.parameters.quality d'.request.parameters.quality

  abbrev pub OutputFormatField : ImageRequest → Draft → Type 0
  OutputFormatField r d' =
      Field true (λ v. contains c.output_formats v ≡ true) "parameters.output_format"
        r.policies.compatibility d'.normalizations r.parameters.output_format
        d'.request.parameters.output_format

  abbrev pub OutputCompressionField : ImageRequest → Draft → Type 0
  OutputCompressionField r d' =
      Field true (λ v. (is_some v && not (compresses d'.request.parameters.output_format)) ≡ false)
        "parameters.output_compression" r.policies.compatibility d'.normalizations
        r.parameters.output_compression d'.request.parameters.output_compression

  abbrev pub BackgroundField : ImageRequest → Draft → Type 0
  BackgroundField r d' =
      Field true (λ v. contains c.backgrounds v ≡ true) "parameters.background"
        r.policies.compatibility d'.normalizations r.parameters.background
        d'.request.parameters.background

  abbrev pub ModerationField : ImageRequest → Draft → Type 0
  ModerationField r d' =
      Field true (λ v. contains c.moderation v ≡ true) "parameters.moderation"
        r.policies.compatibility d'.normalizations r.parameters.moderation
        d'.request.parameters.moderation

  abbrev pub PartialImagesField : ImageRequest → Draft → Type 0
  PartialImagesField r d' =
      Field true (λ v. in_range c.partial_images v ≡ true) "parameters.partial_images"
        r.policies.compatibility d'.normalizations r.parameters.partial_images
        d'.request.parameters.partial_images

  abbrev pub PromptsField : ImageRequest → Draft → Type 0
  PromptsField r d' =
      Field {A = String × Option String} false (λ v. Consumed c r.policies.negative_prompt v.1)
        "negative_prompt" r.policies.compatibility d'.normalizations (r.prompt, r.negative_prompt)
        (d'.request.prompt, d'.request.negative_prompt)

-- The fields before a stage, which it and the later ones keep.
abbrev pub ActionKeeps : GenerationParameters → GenerationParameters → Type 0
ActionKeeps p p' = Unit {0}

abbrev pub NKeeps : GenerationParameters → GenerationParameters → Type 0
NKeeps p p' = (p'.action ≡ p.action) × ActionKeeps p p'

abbrev pub SizeKeeps : GenerationParameters → GenerationParameters → Type 0
SizeKeeps p p' = (p'.n ≡ p.n) × NKeeps p p'

abbrev pub AspectRatioKeeps : GenerationParameters → GenerationParameters → Type 0
AspectRatioKeeps p p' = (p'.size ≡ p.size) × SizeKeeps p p'

abbrev pub ResolutionKeeps : GenerationParameters → GenerationParameters → Type 0
ResolutionKeeps p p' = (p'.aspect_ratio ≡ p.aspect_ratio) × AspectRatioKeeps p p'

abbrev pub QualityKeeps : GenerationParameters → GenerationParameters → Type 0
QualityKeeps p p' = (p'.resolution ≡ p.resolution) × ResolutionKeeps p p'

abbrev pub OutputFormatKeeps : GenerationParameters → GenerationParameters → Type 0
OutputFormatKeeps p p' = (p'.quality ≡ p.quality) × QualityKeeps p p'

abbrev pub OutputCompressionKeeps : GenerationParameters → GenerationParameters → Type 0
OutputCompressionKeeps p p' = (p'.output_format ≡ p.output_format) × OutputFormatKeeps p p'

abbrev pub BackgroundKeeps : GenerationParameters → GenerationParameters → Type 0
BackgroundKeeps p p' = (p'.output_compression ≡ p.output_compression) × OutputCompressionKeeps p p'

abbrev pub ModerationKeeps : GenerationParameters → GenerationParameters → Type 0
ModerationKeeps p p' = (p'.background ≡ p.background) × BackgroundKeeps p p'

abbrev pub PartialImagesKeeps : GenerationParameters → GenerationParameters → Type 0
PartialImagesKeeps p p' = (p'.moderation ≡ p.moderation) × ModerationKeeps p p'

abbrev pub PromptsKeeps : GenerationParameters → GenerationParameters → Type 0
PromptsKeeps p p' = (p'.partial_images ≡ p.partial_images) × PartialImagesKeeps p p'
