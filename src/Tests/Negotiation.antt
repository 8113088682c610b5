-- ===== src/Tests/Negotiation.antt =====
-- The tests of crates/core/src/negotiation.rs, and examples for the theorems on it. The floating-point
-- numbers of the bound on the aspect ratio are taken in thousandths.
use imagegen_bridge.Prelude.{◌≡◌, refl, true, false, none, some, List, [], ◌∷◌}
use imagegen_bridge.Core.Error.{
  Json, ok, err, ErrorCode, bridge_error, with_suggestion, default_suggestions,
}
use imagegen_bridge.Core.Parameters.{
  Quality, ImageAction, CompatibilityMode, default_size, Resolution,
}
use imagegen_bridge.Core.Parameters.Sizes.{exact, dimensions}
use imagegen_bridge.Core.Capabilities.{
  validate, bad_batching, batch_mode_fits, range_eq, any_keyable, any_alpha, in_range,
}
use imagegen_bridge.Core.Negotiation.Checks.{
  unsupported, check_model, model_check, check_operation, operation_check, check_input_counts,
  reference_check, edit_check, check_sessions, session_check, check_user_attribution,
  check_input_fidelity, fidelity_check,
}
use imagegen_bridge.Core.Negotiation.Stages.{
  negotiate_action, negotiate_count, negotiate_aspect_ratio, negotiate_resolution,
  negotiate_partial_images,
}
use imagegen_bridge.Core.Negotiation.Values.{
  negotiate_quality, negotiate_output_format, negotiate_compression, negotiate_background,
  negotiate_moderation,
}
use imagegen_bridge.Core.Negotiation.SizeStage.{
  negotiate_size, size_supported, size_fallback, fits_constraints,
}
use imagegen_bridge.Core.Negotiation.Prompt.{
  negotiate_negative_prompt, negative_stage, merges, merged,
}
use imagegen_bridge.Core.Request.{reference_images}
use imagegen_bridge.Core.Parameters.Wire.{
  contains, quality_eq, quality_name, output_format_eq, background_eq, moderation_eq,
  image_action_eq, image_action_name, resolution_name, size_eq, size_wire,
}
use imagegen_bridge.Core.Parameters.Sizes.{is_auto}
use imagegen_bridge.Core.Parameters.Decimal.{
  show_nat, show_onto, digit_char, parse_u32, parse_digits, split_once,
}
use imagegen_bridge.Core.Negotiation.Recording.{
  record_change, record_optional, pick, clamp, normalize_or_reject,
}
use imagegen_bridge.Core.Request.{
  ImageRequest, generate_request, default_parameters, default_policies,
}
use imagegen_bridge.Core.Negotiation.{
  NegotiatedRequest, negotiate_request, checks, stages, revised_check,
}
use imagegen_bridge.Core.Negotiation.Guarantees.{
  Accepts, negotiate_request-Accepts, negotiate_request-Untouched,
}
use imagegen_bridge.Core.Negotiation.Guarantees.Honesty.{
  Reported, SameParameters, negotiate_request-Reported, negotiate_request-strict,
}
use imagegen_bridge.Core.Negotiation.Guarantees.Idempotence.{negotiate_request_again}
use imagegen_bridge.Core.Negotiation.Guarantees.Refusal.{Refused, negotiate_request-Refused}
use imagegen_bridge.Core.Negotiation.Outcome.{Untouched}
use imagegen_bridge.Core.Response.{Normalization}
use imagegen_bridge.Tests.Providers.{thousandths, capabilities}

-- Three images of high quality, a size that is not to be had, and a negative prompt.
abbrev demanding : ImageRequest
demanding = record (generate_request "an otter") {
  negative_prompt = some "fog";
  parameters = record default_parameters {
    n = 3;
    quality = Quality.high;
    resolution = some Resolution.two_k;
    size = record { value = "1024x1024" };
  };
  policies = record default_policies { compatibility = CompatibilityMode.best_effort };
}

-- What the provider can do of it.
abbrev served : ImageRequest
served = record demanding {
  prompt = "an otter\n\nNegative constraints (avoid these elements): fog";
  negative_prompt = none;
  parameters = record demanding.parameters {
    n = 2;
    quality = Quality.auto;
    resolution = none;
    size = default_size;
  };
}

abbrev changes : List Normalization
changes =
    record {
      field = "parameters.n";
      requested = some (Json.number 3);
      effective = some (Json.number 2);
      reason = "clamped_to_provider_range";
    }
    ∷ record {
      field = "parameters.size";
      requested = some (Json.text "1024x1024");
      effective = some (Json.text "auto");
      reason = "normalized_to_provider_size";
    }
    ∷ record {
      field = "parameters.resolution";
      requested = some (Json.text "2k");
      effective = none;
      reason = "provider_does_not_support_hint";
    }
    ∷ record {
      field = "parameters.quality";
      requested = some (Json.text "high");
      effective = some (Json.text "auto");
      reason = "normalized_to_provider_value";
    }
    ∷ record {
      field = "negative_prompt";
      requested = some (Json.bool true);
      effective = some (Json.text "merged_into_prompt");
      reason = "negative_prompt_prompt_merge";
    }
    ∷ []

abbrev negotiated : NegotiatedRequest
negotiated = record {
  requested = demanding.parameters;
  effective_request = served;
  normalizations = changes;
}

demanding_result : negotiate_request demanding capabilities ≡ ok negotiated
unfolding negotiate_request checks validate bad_batching batch_mode_fits range_eq any_keyable
    any_alpha in_range check_model model_check check_operation operation_check check_input_counts
    reference_check edit_check check_sessions session_check check_user_attribution
    check_input_fidelity fidelity_check reference_images contains background_eq revised_check stages
    negotiate_action negotiate_count negotiate_aspect_ratio negotiate_resolution
    negotiate_partial_images negotiate_quality negotiate_output_format negotiate_compression
    negotiate_background negotiate_moderation negotiate_size size_supported size_fallback
    fits_constraints negotiate_negative_prompt negative_stage merges merged quality_eq quality_name
    output_format_eq moderation_eq image_action_eq resolution_name size_eq is_auto record_change
    record_optional pick clamp normalize_or_reject dimensions split_once parse_u32 parse_digits
demanding_result = refl

-- The same request in strict mode.
abbrev strict_demanding : ImageRequest
strict_demanding = record demanding { policies = default_policies }

strict_demanding_result :
    negotiate_request strict_demanding capabilities
    ≡ err (unsupported capabilities "parameters.n" "output count is outside provider capability")
unfolding negotiate_request checks validate bad_batching batch_mode_fits range_eq any_keyable
    any_alpha in_range check_model model_check check_operation operation_check check_input_counts
    reference_check edit_check check_sessions session_check check_user_attribution
    check_input_fidelity fidelity_check reference_images contains background_eq revised_check stages
    negotiate_action negotiate_count negotiate_aspect_ratio negotiate_resolution
    negotiate_partial_images negotiate_quality negotiate_output_format negotiate_compression
    negotiate_background negotiate_moderation negotiate_size size_supported size_fallback
    fits_constraints negotiate_negative_prompt negative_stage merges merged quality_eq quality_name
    output_format_eq moderation_eq image_action_eq resolution_name size_eq is_auto record_change
    record_optional pick clamp normalize_or_reject dimensions split_once parse_u32 parse_digits
strict_demanding_result = refl

abbrev modest : ImageRequest
modest = generate_request "an otter"

modest_result :
    negotiate_request modest capabilities
    ≡ ok (record { requested = modest.parameters; effective_request = modest; normalizations = [] })
unfolding negotiate_request checks validate bad_batching batch_mode_fits range_eq any_keyable
    any_alpha in_range check_model model_check check_operation operation_check check_input_counts
    reference_check edit_check check_sessions session_check check_user_attribution
    check_input_fidelity fidelity_check reference_images contains background_eq revised_check stages
    negotiate_action negotiate_count negotiate_aspect_ratio negotiate_resolution
    negotiate_partial_images negotiate_quality negotiate_output_format negotiate_compression
    negotiate_background negotiate_moderation negotiate_size size_supported size_fallback
    fits_constraints negotiate_negative_prompt negative_stage merges merged quality_eq quality_name
    output_format_eq moderation_eq image_action_eq resolution_name size_eq is_auto record_change
    record_optional pick clamp normalize_or_reject dimensions split_once parse_u32 parse_digits
modest_result = refl

checks-served : (checks served capabilities ≡ ok tt) × (revised_check served capabilities ≡ ok tt)
unfolding checks validate bad_batching batch_mode_fits range_eq any_keyable any_alpha in_range
    check_model model_check check_operation operation_check check_input_counts reference_check
    edit_check check_sessions session_check check_user_attribution check_input_fidelity
    fidelity_check reference_images contains background_eq revised_check
checks-served = (refl, refl)

no_auto : contains capabilities.sizes.allowed default_size ≡ false
unfolding contains
no_auto = refl

served-Accepts : Accepts capabilities served
served-Accepts =
    negotiate_request-Accepts capabilities demanding negotiated no_auto demanding_result

negotiate_request-Accepts_example : Accepts capabilities served
negotiate_request-Accepts_example =
    negotiate_request-Accepts capabilities demanding negotiated no_auto demanding_result

negotiate_request-Untouched_example :
    Untouched demanding served × (demanding.parameters ≡ demanding.parameters)
negotiate_request-Untouched_example =
    negotiate_request-Untouched capabilities demanding negotiated no_auto demanding_result

negotiate_request-Reported_example :
    Reported demanding.parameters (demanding.prompt, demanding.negative_prompt) negotiated
negotiate_request-Reported_example =
    negotiate_request-Reported capabilities demanding negotiated no_auto demanding_result

negotiate_request-strict_example : SameParameters modest.parameters modest.parameters
negotiate_request-strict_example =
    negotiate_request-strict capabilities modest
      (record { requested = modest.parameters; effective_request = modest; normalizations = [] })
      no_auto refl modest_result

negotiate_request_again_example :
    negotiate_request served capabilities
    ≡ ok (record { requested = served.parameters; effective_request = served; normalizations = [] })
negotiate_request_again_example =
    negotiate_request_again capabilities demanding negotiated no_auto demanding_result

negotiate_request-Refused_example :
    Refused capabilities
      (unsupported capabilities "parameters.n" "output count is outside provider capability")
negotiate_request-Refused_example =
    negotiate_request-Refused capabilities strict_demanding
      (unsupported capabilities "parameters.n" "output count is outside provider capability")
      strict_demanding_result

-- The texts of sizes, the hints of errors and the artifact policies.
exact_text : exact 1024 768 ≡ ok (record { value = "1024x768" })
unfolding exact show_nat show_onto digit_char
exact_text = refl

exact_zero :
    exact 0 768
    ≡ err (bridge_error ErrorCode.invalid_request "image dimensions must be greater than zero")
unfolding exact
exact_zero = refl

dimensions_overflow : dimensions (record { value = "4294967296x1" }) ≡ none
unfolding dimensions is_auto split_once parse_u32 parse_digits
dimensions_overflow = refl

-- A strict request for an action that the provider does not list comes out with `auto`.
abbrev strict_action : ImageRequest
strict_action = record modest {
  parameters = record default_parameters { action = ImageAction.generate };
}

strict_action_changed :
    negotiate_action capabilities (record { request = strict_action; normalizations = [] })
    ≡ ok (record {
      request = modest;
      normalizations =
          record {
            field = "parameters.action";
            requested = some (Json.text "generate");
            effective = some (Json.text "auto");
            reason = "provider_uses_automatic_action";
          }
          ∷ [];
    })
unfolding negotiate_action contains image_action_eq image_action_name record_change record_optional
strict_action_changed = refl

-- A suggestion is added once.
suggestion_once :
    with_suggestion "again" (with_suggestion "again" (bridge_error ErrorCode.timeout "slow"))
    ≡ with_suggestion "again" (bridge_error ErrorCode.timeout "slow")
unfolding with_suggestion bridge_error default_suggestions
suggestion_once = refl
