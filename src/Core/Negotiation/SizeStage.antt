-- ===== src/Core/Negotiation/SizeStage.antt =====
-- The stage of crates/core/src/negotiation.rs for the size. A zero `edge_multiple`, on which the
-- remainder of the source panics, leaves the edge as remainder.
use imagegen_bridge.Prelude.{
  ℕ, ◌*◌, ◌%◌, min, max, Bool, true, false, ◌&&◌, not, Option, none, some, leb, ◌==◌, if◌then◌else◌,
  head?,
}
use imagegen_bridge.Core.Error.{Json, Result, ok, err, ◌>>=◌}
use imagegen_bridge.Core.Parameters.{ImageSize, default_size}
use imagegen_bridge.Core.Parameters.Wire.{contains, size_wire}
use imagegen_bridge.Core.Parameters.Sizes.{is_auto, dimensions}
use imagegen_bridge.Core.Capabilities.{Floats, ProviderCapabilities, SizeCapabilities}
use imagegen_bridge.Core.Negotiation.Checks.{unsupported}
use imagegen_bridge.Core.Negotiation.Recording.{
  Draft, is_strict, record_change, with_parameters, or_fail,
}

-- `is_none_or`
abbrev holds : Option ℕ → (ℕ → Bool) → Bool
holds none test = true
holds (some bound) test = test bound

module _ {F : Type 0} ⦃fl : Floats F⦄ where
  unfoldable pub ratio_fits : Option F → ℕ → ℕ → Bool
  ratio_fits none long short = true
  ratio_fits (some bound) long short = fl.le (fl.div (fl.of_u32 long) (fl.of_u32 short)) bound

  -- The test of arbitrary dimensions.
  unfoldable pub fits_constraints : SizeCapabilities F → ℕ → ℕ → Bool
  unfolding ratio_fits
  fits_constraints s width height =
      s.arbitrary
      && (holds s.min_edge (λ b. leb b (min width height))
          && (holds s.max_edge (λ b. leb (max width height) b)
              && (holds s.edge_multiple (λ m. width % m == 0 && height % m == 0)
                  && (holds s.min_pixels (λ b. leb b (width * height))
                      && (holds s.max_pixels (λ b. leb (width * height) b)
                          && ratio_fits s.max_aspect_ratio (max width height)
                              (min width height))))))

  unfoldable pub size_supported : ImageSize → ProviderCapabilities F → Bool
  unfolding fits_constraints
  size_supported size c =
      if is_auto size
      then c.sizes.auto
      else if contains c.sizes.allowed size
      then true
      else elim (dimensions size) [
        | none ↦ false
        | some (width, height) ↦ fits_constraints c.sizes width height
      ]

  unfoldable pub size_fallback : ImageSize → ProviderCapabilities F → Option ImageSize
  size_fallback requested c =
      if not (is_auto requested) && c.sizes.auto then some default_size else head? c.sizes.allowed

  unfoldable pub negotiate_size : ProviderCapabilities F → Draft → Result Draft
  unfolding size_fallback
  negotiate_size c d =
      if size_supported requested c
      then ok d
      else if is_strict d.request.policies.compatibility
      then err (unsupported c "parameters.size" "requested size is outside provider capability")
      else do
        effective ←
            or_fail (size_fallback requested c)
              (unsupported c "parameters.size" "provider has no usable size fallback")
        ok (record {
          request = with_parameters (record d.request.parameters { size = effective }) d.request;
          normalizations =
              record_change d.normalizations "parameters.size" (Json.text requested.value)
                (Json.text effective.value) "normalized_to_provider_size";
        })
    where
      requested : ImageSize
      requested = d.request.parameters.size
