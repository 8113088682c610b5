-- ===== src/Core/Negotiation/Recording.antt =====
-- What the stages of crates/core/src/negotiation.rs share: the request and the list of normalizations
-- that they change, and the way in which a change is recorded.
use imagegen_bridge.Prelude.{
  ℕ, String, Bool, true, false, Option, none, some, List, [], ◌∷◌, ◌++◌, ltb, if◌then◌else◌, head?,
}
use imagegen_bridge.Core.Error.{Json, BridgeError, Result, ok, err}
use imagegen_bridge.Core.Parameters.{OutputFormat, CompatibilityMode}
use imagegen_bridge.Core.Parameters.Wire.{Wire, contains}
use imagegen_bridge.Core.Response.{Normalization}
use imagegen_bridge.Core.Request.{GenerationParameters, ImageRequest}
use imagegen_bridge.Core.Capabilities.{ProviderCapabilities, U8Range}
use imagegen_bridge.Core.Negotiation.Checks.{unsupported, wire_json}

pub record Draft : Type 0 where
  pub request : ImageRequest
  pub normalizations : List Normalization

abbrev pub is_strict : CompatibilityMode → Bool
is_strict CompatibilityMode.strict = true
is_strict _ = false

-- `record_optional`, and `record` with both values there; the new list is the result.
unfoldable pub record_optional :
    List Normalization → String → Option Json → Option Json → String → List Normalization
record_optional ns field requested effective reason =
    ns
    ++ record { field = field; requested = requested; effective = effective; reason = reason } ∷ []

unfoldable pub record_change :
    List Normalization → String → Json → Json → String → List Normalization
unfolding record_optional
record_change ns field requested effective reason =
    record_optional ns field (some requested) (some effective) reason

-- The request with other parameters.
abbrev pub with_parameters : GenerationParameters → ImageRequest → ImageRequest
with_parameters p r = record r { parameters = p }

-- `set.get(&preferred)`, or else the first element.
unfoldable pub pick : {A : Type 0} ⦃w : Wire A⦄ → List A → A → Option A
pick xs preferred = if contains xs preferred then some preferred else head? xs

unfoldable pub clamp : ℕ → U8Range → ℕ
clamp value r = if ltb value r.min then r.min else if ltb r.max value then r.max else value

abbrev pub or_fail : {A : Type 0} → Option A → BridgeError → Result A
or_fail none e = err e
or_fail (some a) e = ok a

-- The formats with a compression level.
abbrev pub compresses : OutputFormat → Bool
compresses OutputFormat.jpeg = true
compresses OutputFormat.webp = true
compresses OutputFormat.png = false

module _ {F : Type 0} where
  unfoldable pub normalize_or_reject :
      {A : Type 0} ⦃w : Wire A⦄
      → CompatibilityMode
      → ProviderCapabilities F
      → List Normalization
      → String
      → A
      → A
      → Result (List Normalization)
  normalize_or_reject mode c ns field requested effective =
      if is_strict mode
      then err (unsupported c field "requested value is outside provider capability")
      else ok (
          record_change ns field (wire_json requested) (wire_json effective)
            "normalized_to_provider_value")
