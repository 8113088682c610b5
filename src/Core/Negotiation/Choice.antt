-- ===== src/Core/Negotiation/Choice.antt =====
-- What one stage of the negotiation does: it chooses a value of its field, and either keeps the field
-- as it was or records the change.
pub mod Counts
pub mod Listed
pub mod Rest
use mathlib.Core.Bool.{false≢true}
use mathlib.Core.List.{append-nil}
use text.Mathlib.TextPositions.{eq_refl}
use imagegen_bridge.Core.Negotiation.Checks.{wire_json}
use imagegen_bridge.Prelude.{
  ℕ, ◌≤◌, String, ◌≡◌, refl, sym, ◌⊎◌, inl, inr, ◌∙◌, Bool, true, false, ◌||◌, Option, none, some,
  List, [], ◌∷◌, ◌++◌, arith, text_eq, text_eq_iff, Bool-cases, if◌then◌else◌, is_some, not, ◌&&◌,
  head?,
}
use imagegen_bridge.Core.Error.{Json, Result, ok, err}
use imagegen_bridge.Core.Request.{ImageRequest, GenerationParameters}
use imagegen_bridge.Core.Parameters.{
  ImageAction, ImageSize, Resolution, AspectRatio, Quality, OutputFormat, Background, Moderation,
  CompatibilityMode,
}
use imagegen_bridge.Core.Parameters.Wire.{
  Wire, contains, contains-head, quality_wire, output_format_wire, background_wire, moderation_wire,
  image_action_wire, size_wire,
}
use imagegen_bridge.Core.Capabilities.{ProviderCapabilities, U8Range, in_range, is_unsupported}
use imagegen_bridge.Core.Negotiation.Recording.{
  Draft, is_strict, record_optional, record_change, with_parameters, pick, clamp, or_fail,
  compresses, normalize_or_reject,
}
use imagegen_bridge.Core.Response.{Normalization}
use imagegen_bridge.Core.Negotiation.Stages.{
  negotiate_action, negotiate_count, negotiate_aspect_ratio, negotiate_resolution,
  negotiate_partial_images,
}
use imagegen_bridge.Core.Negotiation.Values.{
  negotiate_quality, negotiate_output_format, negotiate_compression, negotiate_background,
  negotiate_moderation,
}

pub clamp-in_range : (r : U8Range) (n : ℕ) → r.min ≤ r.max → in_range r (clamp n r) ≡ true
unfolding clamp in_range
clamp-in_range r n h = ground arith

-- The request with one parameter changed.
abbrev pub set_action : ImageAction → ImageRequest → ImageRequest
set_action value r = with_parameters (record r.parameters { action = value }) r

abbrev pub set_n : ℕ → ImageRequest → ImageRequest
set_n value r = with_parameters (record r.parameters { n = value }) r

abbrev pub set_size : ImageSize → ImageRequest → ImageRequest
set_size value r = with_parameters (record r.parameters { size = value }) r

abbrev pub set_aspect_ratio : Option AspectRatio → ImageRequest → ImageRequest
set_aspect_ratio value r = with_parameters (record r.parameters { aspect_ratio = value }) r

abbrev pub set_resolution : Option Resolution → ImageRequest → ImageRequest
set_resolution value r = with_parameters (record r.parameters { resolution = value }) r

abbrev pub set_quality : Quality → ImageRequest → ImageRequest
set_quality value r = with_parameters (record r.parameters { quality = value }) r

abbrev pub set_output_format : OutputFormat → ImageRequest → ImageRequest
set_output_format value r = with_parameters (record r.parameters { output_format = value }) r

abbrev pub set_output_compression : Option ℕ → ImageRequest → ImageRequest
set_output_compression value r =
    with_parameters (record r.parameters { output_compression = value }) r

abbrev pub set_background : Background → ImageRequest → ImageRequest
set_background value r = with_parameters (record r.parameters { background = value }) r

abbrev pub set_moderation : Moderation → ImageRequest → ImageRequest
set_moderation value r = with_parameters (record r.parameters { moderation = value }) r

abbrev pub set_partial_images : ℕ → ImageRequest → ImageRequest
set_partial_images value r = with_parameters (record r.parameters { partial_images = value }) r

-- Whether a normalization of the field is in the list.
unfoldable pub mentions : String → List Normalization → Bool
mentions field [] = false
mentions field (n ∷ ns) = text_eq n.field field || mentions field ns

-- The field was left as it was and nothing recorded, or the change is in the list.
abbrev pub Told : {A : Type 0} → String → A → A → List Normalization → Type 0
Told field old new more = ((new ≡ old) × (more ≡ [])) ⊎ (mentions field more ≡ true)

-- The stage took a draft to another one: it put a value that fits in the place of the old one, and
-- recorded it if it differs. A stage that is guarded keeps the old value of a strict request.
pub record Stage {A : Type 0} (guarded : Bool) (Fits : A → Type 0) (field : String)
    (put : A → ImageRequest → ImageRequest) (old : A) (d d' : Draft) : Type 0 where
  pub value : A
  pub more : List Normalization
  pub fits : Fits value
  pub told : Told field old value more
  pub kept : guarded ≡ true → is_strict d.request.policies.compatibility ≡ true → value ≡ old
  pub result :
      d' ≡ record { request = put value d.request; normalizations = d.normalizations ++ more }

module _ {A : Type 0} (guarded : Bool) (Fits : A → Type 0) (field : String)
    (put : A → ImageRequest → ImageRequest) (old : A) (d d' : Draft) where
  pub stayed :
      Fits old → put old d.request ≡ d.request → d' ≡ d → Stage guarded Fits field put old d d'
  stayed fit same e = record {
    value = old;
    more = [];
    fits = fit;
    told = inl (refl, refl);
    kept = λ _ _. refl;
    result = rw (same, append-nil) e;
  }

  pub changed :
      (value : A) (requested effective : Option Json) (reason : String)
      → Fits value
      → (guarded ≡ true → is_strict d.request.policies.compatibility ≡ false)
      → d' ≡ record {
        request = put value d.request;
        normalizations = record_optional d.normalizations field requested effective reason;
      }
      → Stage guarded Fits field put old d d'
  unfolding record_optional mentions
  changed value requested effective reason fit lax e = record {
    value = value;
    more =
        record { field = field; requested = requested; effective = effective; reason = reason }
        ∷ [];
    fits = fit;
    told = inr (rw (eq_refl field));
    kept = λ g strict. absurd (false≢true (sym (lax g) ∙ strict));
    result = e;
  }
