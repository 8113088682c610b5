-- ===== src/Core/Negotiation/Checks.antt =====
-- The checks of crates/core/src/negotiation.rs, which accept or reject a request and change nothing.
use text.Mathlib.Text.{starts_with}
use imagegen_bridge.Prelude.{
  ℕ, String, ◌||◌, ◌&&◌, not, Option, none, some, List, length, map, ltb, ◌==◌, if◌then◌else◌,
  is_some, text_eq,
}
use imagegen_bridge.Core.Error.{
  ErrorCode, Json, BridgeError, bridge_error, with_provider, with_detail, Result, ok, err, ◌>>◌,
}
use imagegen_bridge.Core.Parameters.{InputFidelity, SessionMode}
use imagegen_bridge.Core.Parameters.Wire.{Wire, contains, input_fidelity_wire}
use imagegen_bridge.Core.Request.{ImageOperation, ImageRequest, reference_images}
use imagegen_bridge.Core.Capabilities.{ProviderCapabilities, is_unsupported}

-- CODEX_RASTER_MASK_UNSUPPORTED
abbrev pub codex_raster_mask_unsupported : String
codex_raster_mask_unsupported = "CODEX_RASTER_MASK_UNSUPPORTED"

abbrev pub optional_text : Option String → Json
optional_text none = Json.null
optional_text (some s) = Json.text s

-- An enumeration value, and a set of them, as JSON.
abbrev pub wire_json : {A : Type 0} ⦃w : Wire A⦄ → A → Json
wire_json ⦃w⦄ a = Json.text (w.name a)

abbrev pub wires_json : {A : Type 0} ⦃w : Wire A⦄ → List A → Json
wires_json ⦃w⦄ xs = Json.texts (map w.name xs)

module _ {F : Type 0} where
  unfoldable pub unsupported : ProviderCapabilities F → String → String → BridgeError
  unsupported c field message = with_detail "model" (optional_text c.model) (
      with_detail "field" (Json.text field)
        (with_provider c.provider (bridge_error ErrorCode.unsupported_capability message)))

  unfoldable pub model_check :
      ProviderCapabilities F → Option String → Option String → Result (Unit {0})
  model_check c (some requested) (some effective) =
      if text_eq requested effective
      then ok tt
      else err (
          with_detail "effective_model" (Json.text effective) (
            with_detail "requested_model" (Json.text requested)
              (unsupported c "routing.model" "provider cannot honor the requested image model")))
  model_check c _ _ = ok tt

  unfoldable pub check_model : ImageRequest → ProviderCapabilities F → Result (Unit {0})
  unfolding model_check
  check_model r c = model_check c r.routing.model c.model

  unfoldable pub operation_check : ProviderCapabilities F → ImageOperation → Result (Unit {0})
  operation_check c (ImageOperation.generate references) =
      if c.generation
      then ok tt
      else err (unsupported c "operation" "provider does not support image generation")
  operation_check c (ImageOperation.edit images mask references) =
      if c.edits
      then ok tt
      else err (unsupported c "operation" "provider does not support image edits")

  unfoldable pub check_operation : ImageRequest → ProviderCapabilities F → Result (Unit {0})
  unfolding operation_check
  check_operation r c = operation_check c r.operation

  unfoldable pub mask_error : ProviderCapabilities F → BridgeError
  mask_error c =
      if starts_with c.provider "codex-"
      then with_detail "codex_code" (Json.text codex_raster_mask_unsupported)
          (unsupported c "mask" "provider does not support edit masks")
      else unsupported c "mask" "provider does not support edit masks"

  unfoldable pub reference_check : ProviderCapabilities F → ℕ → Result (Unit {0})
  reference_check c reference_count =
      if ltb c.reference_images.max_count reference_count
      then err
          (unsupported c "reference_images" "reference image count exceeds provider capability")
      else if ltb 0 reference_count && is_unsupported c.reference_images.support
      then err (unsupported c "reference_images" "provider does not support reference images")
      else ok tt

  unfoldable pub edit_check : ProviderCapabilities F → ImageOperation → Result (Unit {0})
  unfolding mask_error
  edit_check c (ImageOperation.generate references) = ok tt
  edit_check c (ImageOperation.edit images mask references) =
      if ltb c.edit_images.max_count (length images) || is_unsupported c.edit_images.support
      then err (unsupported c "images" "edit images exceed provider capability")
      else if is_some mask && (is_unsupported c.masks.support || c.masks.max_count == 0)
      then err (mask_error c)
      else ok tt

  unfoldable pub check_input_counts : ImageRequest → ProviderCapabilities F → Result (Unit {0})
  unfolding reference_check edit_check
  check_input_counts r c = do
    reference_check c (length (reference_images r.operation))
    edit_check c r.operation

  unfoldable pub session_check : ProviderCapabilities F → SessionMode → Result (Unit {0})
  session_check c SessionMode.isolated = ok tt
  session_check c SessionMode.persistent =
      if c.persistent_sessions
      then ok tt
      else err (unsupported c "session.mode" "provider does not support persistent sessions")
  session_check c SessionMode.thread =
      if c.explicit_threads
      then ok tt
      else err (unsupported c "session.mode" "provider does not support explicit threads")

  unfoldable pub check_sessions : ImageRequest → ProviderCapabilities F → Result (Unit {0})
  unfolding session_check
  check_sessions r c = session_check c r.session.mode

  unfoldable pub check_user_attribution : ImageRequest → ProviderCapabilities F → Result (Unit {0})
  check_user_attribution r c =
      if not (is_some r.user) || not (is_unsupported c.user_attribution)
      then ok tt
      else err (unsupported c "user" "provider cannot consume the requested end-user attribution")

  unfoldable pub fidelity_check : ProviderCapabilities F → Option InputFidelity → Result (Unit {0})
  fidelity_check c none = ok tt
  fidelity_check c (some requested) =
      if contains c.input_fidelities requested
      then ok tt
      else err (
          with_detail "supported" (wires_json c.input_fidelities) (
            with_detail "requested" (wire_json requested) (
              unsupported c "parameters.input_fidelity"
                "provider cannot honor the requested input fidelity")))

  unfoldable pub check_input_fidelity : ImageRequest → ProviderCapabilities F → Result (Unit {0})
  unfolding fidelity_check
  check_input_fidelity r c = fidelity_check c r.parameters.input_fidelity
