-- ===== src/Tests/Serve.antt =====
-- Examples for the theorems on the whole of `execute` in crates/runtime/src/fanout/mod.rs.
use imagegen_bridge.Prelude.{◌+◌, ◌≤◌, arith, ◌≡◌, refl, false, some, []}
use imagegen_bridge.Core.Error.{ok}
use imagegen_bridge.Core.Parameters.{default_size}
use imagegen_bridge.Core.Parameters.Sizes.{dimensions}
use imagegen_bridge.Core.Capabilities.{
  validate, bad_batching, batch_mode_fits, range_eq, any_keyable, any_alpha, in_range,
}
use imagegen_bridge.Core.Negotiation.Checks.{
  check_model, model_check, check_operation, operation_check, check_input_counts, reference_check,
  edit_check, check_sessions, session_check, check_user_attribution, check_input_fidelity,
  fidelity_check,
}
use imagegen_bridge.Core.Negotiation.Stages.{
  negotiate_action, negotiate_count, negotiate_aspect_ratio, negotiate_resolution,
  negotiate_partial_images,
}
use imagegen_bridge.Core.Negotiation.Values.{
  negotiate_quality, negotiate_output_format, negotiate_compression, negotiate_background,
  negotiate_moderation,
}
use imagegen_bridge.Core.Negotiation.SizeStage.{
  negotiate_size, size_supported, size_fallback, fits_constraints,
}
use imagegen_bridge.Core.Negotiation.Prompt.{
  negotiate_negative_prompt, negative_stage, merges, merged,
}
use imagegen_bridge.Core.Request.{reference_images}
use imagegen_bridge.Core.Parameters.Wire.{
  contains, quality_eq, quality_name, output_format_eq, background_eq, moderation_eq,
  image_action_eq, resolution_name, size_eq, size_wire,
}
use imagegen_bridge.Core.Parameters.Sizes.{is_auto}
use imagegen_bridge.Core.Parameters.Decimal.{parse_u32, parse_digits, split_once}
use imagegen_bridge.Core.Negotiation.Recording.{
  record_change, record_optional, pick, clamp, normalize_or_reject,
}
use imagegen_bridge.Core.Negotiation.{
  NegotiatedRequest, negotiate_request, checks, stages, revised_check,
}
use imagegen_bridge.Tests.Providers.{thousandths, capabilities}
use imagegen_bridge.Runtime.Fanout.Plan.{validate_config, effective_capabilities, raised}
use imagegen_bridge.Runtime.Fanout.Coverage.{image_hits, failure_hits}
use imagegen_bridge.Runtime.Fanout.Serve.{
  finish_response, negotiate_effective, serve_negotiated, serve, effective_capabilities-ok,
}
use imagegen_bridge.Runtime.Fanout.Serve.Totals.{serve-outputs}
use imagegen_bridge.Tests.Fanout.{
  config, readings, fast, all_well, canned, joined_fast, joined_fast_result,
}

abbrev whole : NegotiatedRequest
whole = record { requested = fast.parameters; effective_request = fast; normalizations = [] }

whole_result : negotiate_effective config capabilities fast ≡ ok whole
unfolding negotiate_effective effective_capabilities negotiate_request checks validate bad_batching
    batch_mode_fits range_eq any_keyable any_alpha in_range check_model model_check check_operation
    operation_check check_input_counts reference_check edit_check check_sessions session_check
    check_user_attribution check_input_fidelity fidelity_check reference_images contains
    background_eq revised_check stages negotiate_action negotiate_count negotiate_aspect_ratio
    negotiate_resolution negotiate_partial_images negotiate_quality negotiate_output_format
    negotiate_compression negotiate_background negotiate_moderation negotiate_size size_supported
    size_fallback fits_constraints negotiate_negative_prompt negative_stage merges merged quality_eq
    quality_name output_format_eq moderation_eq image_action_eq resolution_name size_eq is_auto
    record_change record_optional pick clamp normalize_or_reject dimensions split_once parse_u32
    parse_digits
whole_result = refl

capabilities_valid : validate capabilities ≡ ok tt
unfolding validate bad_batching batch_mode_fits range_eq any_keyable any_alpha contains
    background_eq
capabilities_valid = refl

no_auto : contains capabilities.sizes.allowed default_size ≡ false
unfolding contains
no_auto = refl

serve_result :
    serve config capabilities fast "r" readings (λ r. some (ok (canned 1))) all_well
    ≡ some (ok (finish_response whole joined_fast))
unfolding serve serve_negotiated
serve_result = rw (whole_result, serve, joined_fast_result, serve_negotiated) refl

effective_capabilities-ok_example :
    effective_capabilities config capabilities ≡ ok (raised config capabilities)
unfolding validate_config
effective_capabilities-ok_example =
    effective_capabilities-ok config capabilities refl capabilities_valid

serve-outputs_example :
    (image_hits 4 joined_fast.images + failure_hits 4 joined_fast.failures ≡ 1)
    × (5 ≤ 10)
    × (fast.parameters ≡ fast.parameters)
unfolding validate_config finish_response
serve-outputs_example =
    serve-outputs config capabilities fast "r" readings (λ r. some (ok (canned 1))) all_well
      (finish_response whole joined_fast) 4 refl (ground arith) no_auto serve_result (ground arith)
