-- ===== src/Core/Negotiation/Values.antt =====
-- The stages of crates/core/src/negotiation.rs for the values that a provider lists: quality, format
-- with its compression, background and moderation.
use mathlib.Core.Option
use imagegen_bridge.Prelude.{◌&&◌, not, none, if◌then◌else◌, is_some}
use imagegen_bridge.Core.Error.{Json, Result, ok, err, ◌>>=◌}
use imagegen_bridge.Core.Parameters.{Quality, OutputFormat, Background, Moderation}
use imagegen_bridge.Core.Parameters.Wire.{
  contains, quality_wire, output_format_wire, background_wire, moderation_wire,
}
use imagegen_bridge.Core.Capabilities.{ProviderCapabilities}
use imagegen_bridge.Core.Negotiation.Checks.{unsupported}
use imagegen_bridge.Core.Negotiation.Recording.{
  Draft, is_strict, record_optional, with_parameters, pick, or_fail, compresses,
  normalize_or_reject,
}

module _ {F : Type 0} where
  unfoldable pub negotiate_quality : ProviderCapabilities F → Draft → Result Draft
  unfolding normalize_or_reject
  negotiate_quality c d = if contains c.qualities d.request.parameters.quality then ok d else do
    effective ←
        or_fail (pick c.qualities Quality.auto)
          (unsupported c "parameters.quality" "provider declares no supported quality")
    ns ←
        normalize_or_reject d.request.policies.compatibility c d.normalizations "parameters.quality"
          d.request.parameters.quality effective
    ok (record {
      request = with_parameters (record d.request.parameters { quality = effective }) d.request;
      normalizations = ns;
    })

  unfoldable pub negotiate_output_format : ProviderCapabilities F → Draft → Result Draft
  unfolding normalize_or_reject
  negotiate_output_format c d =
      if contains c.output_formats d.request.parameters.output_format then ok d else do
        effective ←
            or_fail (pick c.output_formats OutputFormat.png)
              (unsupported c "parameters.output_format" "provider declares no output format")
        ns ←
            normalize_or_reject d.request.policies.compatibility c d.normalizations
              "parameters.output_format" d.request.parameters.output_format effective
        ok (record {
          request =
              with_parameters (record d.request.parameters { output_format = effective }) d.request;
          normalizations = ns;
        })

  unfoldable pub negotiate_compression : ProviderCapabilities F → Draft → Result Draft
  negotiate_compression c d =
      if is_some d.request.parameters.output_compression
        && not (compresses d.request.parameters.output_format)
      then if is_strict d.request.policies.compatibility
        then err (
            unsupported c "parameters.output_compression"
              "effective output format does not support compression")
        else ok (record {
          request =
              with_parameters (record d.request.parameters { output_compression = none }) d.request;
          normalizations =
              record_optional d.normalizations "parameters.output_compression"
                (Option.map Json.number d.request.parameters.output_compression) none
                "effective_format_has_no_compression";
        })
      else ok d

  unfoldable pub negotiate_background : ProviderCapabilities F → Draft → Result Draft
  unfolding normalize_or_reject
  negotiate_background c d =
      if contains c.backgrounds d.request.parameters.background then ok d else do
        effective ←
            or_fail (pick c.backgrounds Background.auto)
              (unsupported c "parameters.background" "provider declares no background behavior")
        ns ←
            normalize_or_reject d.request.policies.compatibility c d.normalizations
              "parameters.background" d.request.parameters.background effective
        ok (record {
          request =
              with_parameters (record d.request.parameters { background = effective }) d.request;
          normalizations = ns;
        })

  unfoldable pub negotiate_moderation : ProviderCapabilities F → Draft → Result Draft
  unfolding normalize_or_reject
  negotiate_moderation c d =
      if contains c.moderation d.request.parameters.moderation then ok d else do
        effective ←
            or_fail (pick c.moderation Moderation.auto)
              (unsupported c "parameters.moderation" "provider declares no moderation behavior")
        ns ←
            normalize_or_reject d.request.policies.compatibility c d.normalizations
              "parameters.moderation" d.request.parameters.moderation effective
        ok (record {
          request =
              with_parameters (record d.request.parameters { moderation = effective }) d.request;
          normalizations = ns;
        })
