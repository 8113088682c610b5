-- ===== src/Core/Capabilities.antt =====
-- crates/core/src/capabilities.rs: what a provider declares that it supports.
use imagegen_bridge.Prelude.{
  ℕ, String, Bool, true, false, ◌||◌, ◌&&◌, not, Option, List, [], ◌∷◌, leb, ltb, ◌==◌,
}
use imagegen_bridge.Core.Error.{
  ErrorCode, BridgeError, bridge_error, with_provider, Result, ok, err, ◌>>◌,
}
use imagegen_bridge.Core.Parameters.{
  Quality, OutputFormat, Background, Moderation, InputFidelity, ImageAction, ImageSize,
}
use imagegen_bridge.Core.Parameters.Wire.{contains, background_wire}

-- IEEE 754 doubles, of which the code uses three operations.
pub record Floats (F : Type 0) : Type 0 where
  pub of_u32 : ℕ → F
  pub div : F → F → F
  pub le : F → F → Bool

pub data SupportLevel : Type 0 where
  native emulated unsupported : SupportLevel

abbrev pub is_unsupported : SupportLevel → Bool
is_unsupported SupportLevel.unsupported = true
is_unsupported _ = false

abbrev pub is_native : SupportLevel → Bool
is_native SupportLevel.native = true
is_native _ = false

abbrev pub is_emulated : SupportLevel → Bool
is_emulated SupportLevel.emulated = true
is_emulated _ = false

pub record U8Range : Type 0 where
  pub min : ℕ
  pub max : ℕ

pub data BatchMode : Type 0 where
  native fan_out : BatchMode

pub record BatchCapabilities : Type 0 where
  pub mode : BatchMode
  pub native_count : U8Range
  pub max_parallel_outputs : ℕ

-- U8Range::contains
unfoldable pub in_range : U8Range → ℕ → Bool
in_range r value = leb r.min value && leb value r.max

-- A set (`BTreeSet`) is the list of its elements in ascending order.
pub record SizeCapabilities (F : Type 0) : Type 0 where
  pub auto : Bool
  pub allowed : List ImageSize
  pub arbitrary : Bool
  pub min_edge : Option ℕ
  pub max_edge : Option ℕ
  pub edge_multiple : Option ℕ
  pub min_pixels : Option ℕ
  pub max_pixels : Option ℕ
  pub max_aspect_ratio : Option F

pub record InputCapabilities : Type 0 where
  pub support : SupportLevel
  pub max_count : ℕ
  pub max_bytes_each : ℕ
  pub max_bytes_total : ℕ

pub record ProviderCapabilities (F : Type 0) : Type 0 where
  pub provider : String
  pub implementation_version : String
  pub model : Option String
  pub experimental : Bool
  pub generation : Bool
  pub edits : Bool
  pub count : U8Range
  pub batching : BatchCapabilities
  pub sizes : SizeCapabilities F
  pub aspect_ratio : SupportLevel
  pub resolution : SupportLevel
  pub qualities : List Quality
  pub output_formats : List OutputFormat
  pub backgrounds : List Background
  pub transparent_background : SupportLevel
  pub moderation : List Moderation
  pub negative_prompt : SupportLevel
  pub revised_prompt : SupportLevel
  pub user_attribution : SupportLevel
  pub input_fidelities : List InputFidelity
  pub actions : List ImageAction
  pub reference_images : InputCapabilities
  pub edit_images : InputCapabilities
  pub masks : InputCapabilities
  pub partial_images : U8Range
  pub persistent_sessions : Bool
  pub explicit_threads : Bool

unfoldable pub range_eq : U8Range → U8Range → Bool
range_eq a b = a.min == b.min && a.max == b.max

unfoldable pub batch_mode_fits : BatchMode → U8Range → U8Range → Bool
unfolding range_eq
batch_mode_fits BatchMode.native native_count count = range_eq native_count count
batch_mode_fits BatchMode.fan_out native_count count = ltb native_count.max count.max

-- Whether any background is `auto` or `opaque`.
unfoldable pub any_keyable : List Background → Bool
any_keyable [] = false
any_keyable (Background.auto ∷ bs) = true
any_keyable (Background.opaque ∷ bs) = true
any_keyable (Background.transparent ∷ bs) = any_keyable bs

-- Whether any format is `png` or `webp`.
unfoldable pub any_alpha : List OutputFormat → Bool
any_alpha [] = false
any_alpha (OutputFormat.png ∷ fs) = true
any_alpha (OutputFormat.webp ∷ fs) = true
any_alpha (OutputFormat.jpeg ∷ fs) = any_alpha fs

-- Equality of two truth values.
abbrev same : Bool → Bool → Bool
same true b = b
same false b = not b

abbrev pub reject_when : Bool → BridgeError → Result (Unit {0})
reject_when true e = err e
reject_when false e = ok tt

module _ {F : Type 0} where
  unfoldable pub invalid_capability : ProviderCapabilities F → String → BridgeError
  invalid_capability c message = with_provider c.provider (bridge_error ErrorCode.protocol message)

  unfoldable pub bad_batching : ProviderCapabilities F → Bool
  unfolding batch_mode_fits
  bad_batching c =
      native_count.min == 0
      || ltb native_count.max native_count.min
      || ltb native_count.min c.count.min
      || ltb c.count.max native_count.max
      || c.batching.max_parallel_outputs == 0
      || ltb c.count.max c.batching.max_parallel_outputs
      || not (batch_mode_fits c.batching.mode native_count c.count)
    where
      native_count : U8Range
      native_count = c.batching.native_count

  -- ProviderCapabilities::validate
  unfoldable pub validate : ProviderCapabilities F → Result (Unit {0})
  unfolding invalid_capability bad_batching any_keyable any_alpha
  validate c = do
    reject_when (c.count.min == 0 || ltb c.count.max c.count.min)
        (invalid_capability c "provider output-count capability range is invalid")
    reject_when (bad_batching c) (
        invalid_capability c
          "provider batching capability is inconsistent with its output-count range")
    reject_when (ltb c.partial_images.max c.partial_images.min)
        (invalid_capability c "provider partial-image capability range is invalid")
    reject_when
        (not (
          same (contains c.backgrounds Background.transparent)
            (is_native c.transparent_background)))
        (invalid_capability c "provider transparent-background capability is inconsistent")
    reject_when
        (is_emulated c.transparent_background
          && (not (any_keyable c.backgrounds) || not (any_alpha c.output_formats)))
        (invalid_capability c
          "emulated transparent output requires a keyable background and alpha format")
