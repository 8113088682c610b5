-- ===== src/Core/Negotiation.antt =====
-- crates/core/src/negotiation.rs: one request against the capabilities of a provider. The request and
-- the list of normalizations, which the source changes in place, are passed on in a `Draft`.
pub mod Checks
pub mod Recording
pub mod Stages
pub mod Values
pub mod SizeStage
pub mod Prompt
pub mod Choice
pub mod Outcome
pub mod Guarantees
use imagegen_bridge.Prelude.{String, Bool, true, false, ◌&&◌, List, [], if◌then◌else◌}
use imagegen_bridge.Core.Error.{Result, ok, err, ◌>>=◌, ◌>>◌}
use imagegen_bridge.Core.Request.{GenerationParameters, ImageRequest}
use imagegen_bridge.Core.Parameters.{RevisedPromptPolicy}
use imagegen_bridge.Core.Capabilities.{Floats, ProviderCapabilities, is_unsupported, validate}
use Checks.{
  unsupported, check_model, check_operation, check_input_counts, check_sessions,
  check_user_attribution, check_input_fidelity,
}
use Recording.{Draft}
use imagegen_bridge.Core.Response.{Normalization}
use Stages.{
  negotiate_action, negotiate_count, negotiate_aspect_ratio, negotiate_resolution,
  negotiate_partial_images,
}
use Values.{
  negotiate_quality, negotiate_output_format, negotiate_compression, negotiate_background,
  negotiate_moderation,
}
use SizeStage.{negotiate_size}
use Prompt.{negotiate_negative_prompt}

pub record NegotiatedRequest : Type 0 where
  pub requested : GenerationParameters
  pub effective_request : ImageRequest
  pub normalizations : List Normalization

abbrev requires : RevisedPromptPolicy → Bool
requires RevisedPromptPolicy.require = true
requires _ = false

module _ {F : Type 0} ⦃fl : Floats F⦄ where
  -- The stages in the order of the source, with the parameters from `request`.
  unfoldable pub stages : ProviderCapabilities F → Draft → Result Draft
  stages c d = do
    d ← negotiate_action c d
    d ← negotiate_count c d
    d ← negotiate_size c d
    d ← negotiate_aspect_ratio c d
    d ← negotiate_resolution c d
    d ← negotiate_quality c d
    d ← negotiate_output_format c d
    d ← negotiate_compression c d
    d ← negotiate_background c d
    d ← negotiate_moderation c d
    d ← negotiate_partial_images c d
    negotiate_negative_prompt c d

  unfoldable pub checks : ImageRequest → ProviderCapabilities F → Result (Unit {0})
  checks r c = do
    validate c
    check_model r c
    check_operation r c
    check_input_counts r c
    check_sessions r c
    check_user_attribution r c
    check_input_fidelity r c

  unfoldable pub revised_check : ImageRequest → ProviderCapabilities F → Result (Unit {0})
  revised_check r c =
      if requires r.policies.revised_prompt && is_unsupported c.revised_prompt
      then err (unsupported c "policies.revised_prompt" "provider cannot return a revised prompt")
      else ok tt

  unfoldable pub negotiate_request :
      ImageRequest → ProviderCapabilities F → Result NegotiatedRequest
  unfolding checks stages revised_check
  negotiate_request r c = do
    checks r c
    d ← stages c (record { request = r; normalizations = [] })
    revised_check r c
    ok (record {
      requested = r.parameters;
      effective_request = d.request;
      normalizations = d.normalizations;
    })
