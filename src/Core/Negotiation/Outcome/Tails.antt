-- ===== src/Core/Negotiation/Outcome/Tails.antt =====
-- The stages of crates/core/src/negotiation.rs from one of them to the last, and the fields they leave.
use imagegen_bridge.Core.Error.{Result, ◌>>=◌}
use imagegen_bridge.Core.Request.{ImageRequest}
use imagegen_bridge.Core.Parameters.Wire.{
  quality_wire, output_format_wire, background_wire, moderation_wire, image_action_wire, size_wire,
}
use imagegen_bridge.Core.Capabilities.{Floats, ProviderCapabilities}
use imagegen_bridge.Core.Negotiation.Recording.{Draft}
use imagegen_bridge.Core.Negotiation.Stages.{
  negotiate_action, negotiate_count, negotiate_aspect_ratio, negotiate_resolution,
  negotiate_partial_images,
}
use imagegen_bridge.Core.Negotiation.Values.{
  negotiate_quality, negotiate_output_format, negotiate_compression, negotiate_background,
  negotiate_moderation,
}
use imagegen_bridge.Core.Negotiation.SizeStage.{negotiate_size}
use imagegen_bridge.Core.Negotiation.Prompt.{negotiate_negative_prompt}
use imagegen_bridge.Core.Negotiation.Outcome.Fields.{
  ActionField, NField, SizeField, AspectRatioField, ResolutionField, QualityField,
  OutputFormatField, OutputCompressionField, BackgroundField, ModerationField, PartialImagesField,
  PromptsField,
}

module _ {F : Type 0} ⦃fl : Floats F⦄ (c : ProviderCapabilities F) where
  abbrev pub prompts_to_end : Draft → Result Draft
  prompts_to_end d = negotiate_negative_prompt c d

  abbrev pub partial_images_to_end : Draft → Result Draft
  partial_images_to_end d = negotiate_partial_images c d >>= prompts_to_end

  abbrev pub moderation_to_end : Draft → Result Draft
  moderation_to_end d = negotiate_moderation c d >>= partial_images_to_end

  abbrev pub background_to_end : Draft → Result Draft
  background_to_end d = negotiate_background c d >>= moderation_to_end

  abbrev pub output_compression_to_end : Draft → Result Draft
  output_compression_to_end d = negotiate_compression c d >>= background_to_end

  abbrev pub output_format_to_end : Draft → Result Draft
  output_format_to_end d = negotiate_output_format c d >>= output_compression_to_end

  abbrev pub quality_to_end : Draft → Result Draft
  quality_to_end d = negotiate_quality c d >>= output_format_to_end

  abbrev pub resolution_to_end : Draft → Result Draft
  resolution_to_end d = negotiate_resolution c d >>= quality_to_end

  abbrev pub aspect_ratio_to_end : Draft → Result Draft
  aspect_ratio_to_end d = negotiate_aspect_ratio c d >>= resolution_to_end

  abbrev pub size_to_end : Draft → Result Draft
  size_to_end d = negotiate_size c d >>= aspect_ratio_to_end

  abbrev pub n_to_end : Draft → Result Draft
  n_to_end d = negotiate_count c d >>= size_to_end

  abbrev pub action_to_end : Draft → Result Draft
  action_to_end d = negotiate_action c d >>= n_to_end

  abbrev pub PromptsRest : ImageRequest → Draft → Type 0
  PromptsRest r d' = PromptsField c r d'

  abbrev pub PartialImagesRest : ImageRequest → Draft → Type 0
  PartialImagesRest r d' = PartialImagesField c r d' × PromptsRest r d'

  abbrev pub ModerationRest : ImageRequest → Draft → Type 0
  ModerationRest r d' = ModerationField c r d' × PartialImagesRest r d'

  abbrev pub BackgroundRest : ImageRequest → Draft → Type 0
  BackgroundRest r d' = BackgroundField c r d' × ModerationRest r d'

  abbrev pub OutputCompressionRest : ImageRequest → Draft → Type 0
  OutputCompressionRest r d' = OutputCompressionField c r d' × BackgroundRest r d'

  abbrev pub OutputFormatRest : ImageRequest → Draft → Type 0
  OutputFormatRest r d' = OutputFormatField c r d' × OutputCompressionRest r d'

  abbrev pub QualityRest : ImageRequest → Draft → Type 0
  QualityRest r d' = QualityField c r d' × OutputFormatRest r d'

  abbrev pub ResolutionRest : ImageRequest → Draft → Type 0
  ResolutionRest r d' = ResolutionField c r d' × QualityRest r d'

  abbrev pub AspectRatioRest : ImageRequest → Draft → Type 0
  AspectRatioRest r d' = AspectRatioField c r d' × ResolutionRest r d'

  abbrev pub SizeRest : ImageRequest → Draft → Type 0
  SizeRest r d' = SizeField c r d' × AspectRatioRest r d'

  abbrev pub NRest : ImageRequest → Draft → Type 0
  NRest r d' = NField c r d' × SizeRest r d'

  abbrev pub ActionRest : ImageRequest → Draft → Type 0
  ActionRest r d' = ActionField c r d' × NRest r d'
