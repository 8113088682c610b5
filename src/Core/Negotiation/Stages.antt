-- ===== src/Core/Negotiation/Stages.antt =====
-- The stages of crates/core/src/negotiation.rs for the action, the counts and the hints.
use mathlib.Core.Option
use imagegen_bridge.Prelude.{ℕ, ◌&&◌, not, none, if◌then◌else◌, is_some}
use imagegen_bridge.Core.Error.{Json, with_detail, Result, ok, err}
use imagegen_bridge.Core.Parameters.{ImageAction}
use imagegen_bridge.Core.Parameters.Wire.{contains, image_action_wire, resolution_wire}
use imagegen_bridge.Core.Capabilities.{ProviderCapabilities, in_range, is_unsupported}
use imagegen_bridge.Core.Negotiation.Checks.{unsupported, wire_json, wires_json}
use imagegen_bridge.Core.Negotiation.Recording.{
  Draft, is_strict, record_optional, record_change, with_parameters, clamp,
}

module _ {F : Type 0} where
  unfoldable pub negotiate_action : ProviderCapabilities F → Draft → Result Draft
  negotiate_action c d =
      if contains c.actions d.request.parameters.action
      then ok d
      else if not (image_action_wire.beq d.request.parameters.action ImageAction.auto)
          && contains c.actions ImageAction.auto
      then ok (record {
        request =
            with_parameters (record d.request.parameters { action = ImageAction.auto }) d.request;
        normalizations =
            record_change d.normalizations "parameters.action"
              (wire_json d.request.parameters.action) (wire_json ImageAction.auto)
              "provider_uses_automatic_action";
      })
      else err (
          with_detail "supported" (wires_json c.actions) (
            with_detail "requested" (wire_json d.request.parameters.action) (
              unsupported c "parameters.action"
                "provider cannot honor the requested image action")))

  unfoldable pub negotiate_count : ProviderCapabilities F → Draft → Result Draft
  negotiate_count c d =
      if in_range c.count requested
      then ok d
      else if is_strict d.request.policies.compatibility
      then err (unsupported c "parameters.n" "output count is outside provider capability")
      else ok (record {
        request =
            with_parameters (record d.request.parameters { n = clamp requested c.count }) d.request;
        normalizations =
            record_change d.normalizations "parameters.n" (Json.number requested)
              (Json.number (clamp requested c.count)) "clamped_to_provider_range";
      })
    where
      requested : ℕ
      requested = d.request.parameters.n

  unfoldable pub negotiate_aspect_ratio : ProviderCapabilities F → Draft → Result Draft
  negotiate_aspect_ratio c d =
      if is_some d.request.parameters.aspect_ratio && is_unsupported c.aspect_ratio
      then if is_strict d.request.policies.compatibility
        then err
            (unsupported c "parameters.aspect_ratio" "provider cannot honor an aspect-ratio hint")
        else ok (record {
          request = with_parameters (record d.request.parameters { aspect_ratio = none }) d.request;
          normalizations =
              record_optional d.normalizations "parameters.aspect_ratio"
                (Option.map (λ a. Json.text a.value) d.request.parameters.aspect_ratio) none
                "provider_does_not_support_hint";
        })
      else ok d

  unfoldable pub negotiate_resolution : ProviderCapabilities F → Draft → Result Draft
  negotiate_resolution c d =
      if is_some d.request.parameters.resolution && is_unsupported c.resolution
      then if is_strict d.request.policies.compatibility
        then err (unsupported c "parameters.resolution" "provider cannot honor a resolution hint")
        else ok (record {
          request = with_parameters (record d.request.parameters { resolution = none }) d.request;
          normalizations =
              record_optional d.normalizations "parameters.resolution"
                (Option.map wire_json d.request.parameters.resolution) none
                "provider_does_not_support_hint";
        })
      else ok d

  unfoldable pub negotiate_partial_images : ProviderCapabilities F → Draft → Result Draft
  negotiate_partial_images c d =
      if in_range c.partial_images requested
      then ok d
      else if is_strict d.request.policies.compatibility
      then err (
          unsupported c "parameters.partial_images"
            "partial image count is outside provider capability")
      else ok (record {
        request =
            with_parameters
              (record d.request.parameters { partial_images = clamp requested c.partial_images })
              d.request;
        normalizations =
            record_change d.normalizations "parameters.partial_images" (Json.number requested)
              (Json.number (clamp requested c.partial_images)) "clamped_to_provider_range";
      })
    where
      requested : ℕ
      requested = d.request.parameters.partial_images
