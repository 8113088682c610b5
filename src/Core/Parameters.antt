-- ===== src/Core/Parameters.antt =====
-- crates/core/src/parameters.rs: the enumerations of the contract with their wire names, and the
-- validated texts of image sizes and aspect ratios.
pub mod Decimal
pub mod Wire
pub mod Sizes
use imagegen_bridge.Prelude.{Bool, true, false, String}

pub data Quality : Type 0 where
  auto low medium high : Quality

pub data OutputFormat : Type 0 where
  png jpeg webp : OutputFormat

pub data Background : Type 0 where
  auto opaque transparent : Background

pub data TransparencyMode : Type 0 where
  auto native chroma_key : TransparencyMode

pub data FallbackPolicy : Type 0 where
  on_unavailable on_error : FallbackPolicy

pub data BatchExecution : Type 0 where
  auto sequential parallel : BatchExecution

pub data Moderation : Type 0 where
  auto low : Moderation

pub data MultiImageFailurePolicy : Type 0 where
  fail_fast best_effort : MultiImageFailurePolicy

pub data InputFidelity : Type 0 where
  low high : InputFidelity

pub data ImageAction : Type 0 where
  auto generate edit : ImageAction

pub data ResponseFormat : Type 0 where
  b64_json url artifact metadata : ResponseFormat

pub data ArtifactCollisionPolicy : Type 0 where
  error suffix : ArtifactCollisionPolicy

pub data ArtifactMetadataPolicy : Type 0 where
  none sidecar embedded sidecar_and_embedded : ArtifactMetadataPolicy

unfoldable pub writes_sidecar : ArtifactMetadataPolicy → Bool
writes_sidecar ArtifactMetadataPolicy.sidecar = true
writes_sidecar ArtifactMetadataPolicy.sidecar_and_embedded = true
writes_sidecar _ = false

unfoldable pub embeds : ArtifactMetadataPolicy → Bool
embeds ArtifactMetadataPolicy.embedded = true
embeds ArtifactMetadataPolicy.sidecar_and_embedded = true
embeds _ = false

pub data CompatibilityMode : Type 0 where
  strict normalize best_effort : CompatibilityMode

pub data NegativePromptMode : Type 0 where
  auto native merge reject : NegativePromptMode

pub data RevisedPromptPolicy : Type 0 where
  include omit require : RevisedPromptPolicy

pub data SessionMode : Type 0 where
  isolated persistent thread : SessionMode

pub data Resolution : Type 0 where
  one_k two_k four_k : Resolution

-- A validated text: `auto` or `WIDTHxHEIGHT`.
pub record ImageSize : Type 0 where
  pub value : String

-- A validated text, `WIDTH:HEIGHT`.
pub record AspectRatio : Type 0 where
  pub value : String

-- The `Default` implementations.
abbrev pub default_size : ImageSize
default_size = record { value = "auto" }

abbrev pub default_fallback_policy : FallbackPolicy
default_fallback_policy = FallbackPolicy.on_unavailable
