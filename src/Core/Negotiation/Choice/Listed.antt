-- ===== src/Core/Negotiation/Choice/Listed.antt =====
-- The listed values and the compression after their stages.
use mathlib.Core.Option
use mathlib.Core.Option.{some-injective}
use imagegen_bridge.Core.Negotiation.Checks.{wire_json}
use imagegen_bridge.Prelude.{
  ◌≡◌, refl, inl, inr, true, false, none, some, List, [], ◌∷◌, arith, Bool-cases, Option-cases,
  is_some, not, ◌&&◌,
}
use imagegen_bridge.Core.Error.{Json, ok}
use imagegen_bridge.Core.Parameters.{Quality, OutputFormat, Background, Moderation}
use imagegen_bridge.Core.Parameters.Wire.{
  Wire, contains, contains-head, quality_wire, output_format_wire, background_wire, moderation_wire,
  image_action_wire, size_wire,
}
use imagegen_bridge.Core.Capabilities.{ProviderCapabilities}
use imagegen_bridge.Core.Negotiation.Recording.{Draft, is_strict, record_change, pick, compresses}
use imagegen_bridge.Core.Negotiation.Values.{
  negotiate_quality, negotiate_output_format, negotiate_compression, negotiate_background,
  negotiate_moderation,
}
use imagegen_bridge.Core.Negotiation.Choice.{
  Stage, stayed, changed, set_quality, set_output_format, set_output_compression, set_background,
  set_moderation,
}

pick-contains :
    {A : Type 0} ⦃w : Wire A⦄ (xs : List A) (preferred v : A)
    → pick xs preferred ≡ some v
    → contains xs v ≡ true
unfolding pick
pick-contains [] preferred v h = ground arith
pick-contains (x ∷ xs) preferred v h = ground (arith, contains-head x xs)

module _ {F : Type 0} (c : ProviderCapabilities F) (d d' : Draft) where
  pub quality-Stage :
      negotiate_quality c d ≡ ok d'
      → Stage true
          (λ v. contains c.qualities v ≡ true)
          "parameters.quality"
          set_quality
          d.request.parameters.quality
          d
          d'
  unfolding negotiate_quality record_change
  quality-Stage h = elim (Bool-cases (contains c.qualities d.request.parameters.quality)) [
    | inl fit ↦ stayed _ _ _ _ _ d d' fit refl (ground arith)
    | inr other ↦ elim (Bool-cases (is_strict d.request.policies.compatibility)) [
      | inl strict ↦ absurd (ground (arith, Option-cases (pick c.qualities Quality.auto)))
      | inr lax ↦ elim (Option-cases (pick c.qualities Quality.auto)) [
        | inl empty ↦ absurd (ground arith)
        | inr (v, picked) ↦
            changed _ _ _ _ _ d d' v (some (wire_json d.request.parameters.quality))
              (some (wire_json v)) "normalized_to_provider_value"
              (pick-contains c.qualities Quality.auto v picked) (λ _. lax) (ground arith)
      ]
    ]
  ]

  pub output_format-Stage :
      negotiate_output_format c d ≡ ok d'
      → Stage true
          (λ v. contains c.output_formats v ≡ true)
          "parameters.output_format"
          set_output_format
          d.request.parameters.output_format
          d
          d'
  unfolding negotiate_output_format record_change
  output_format-Stage h =
      elim (Bool-cases (contains c.output_formats d.request.parameters.output_format)) [
        | inl fit ↦ stayed _ _ _ _ _ d d' fit refl (ground arith)
        | inr other ↦ elim (Bool-cases (is_strict d.request.policies.compatibility)) [
          | inl strict ↦
              absurd (ground (arith, Option-cases (pick c.output_formats OutputFormat.png)))
          | inr lax ↦ elim (Option-cases (pick c.output_formats OutputFormat.png)) [
            | inl empty ↦ absurd (ground arith)
            | inr (v, picked) ↦
                changed _ _ _ _ _ d d' v (some (wire_json d.request.parameters.output_format))
                  (some (wire_json v)) "normalized_to_provider_value"
                  (pick-contains c.output_formats OutputFormat.png v picked) (λ _. lax)
                  (ground arith)
          ]
        ]
      ]

  pub background-Stage :
      negotiate_background c d ≡ ok d'
      → Stage true
          (λ v. contains c.backgrounds v ≡ true)
          "parameters.background"
          set_background
          d.request.parameters.background
          d
          d'
  unfolding negotiate_background record_change
  background-Stage h = elim (Bool-cases (contains c.backgrounds d.request.parameters.background)) [
    | inl fit ↦ stayed _ _ _ _ _ d d' fit refl (ground arith)
    | inr other ↦ elim (Bool-cases (is_strict d.request.policies.compatibility)) [
      | inl strict ↦ absurd (ground (arith, Option-cases (pick c.backgrounds Background.auto)))
      | inr lax ↦ elim (Option-cases (pick c.backgrounds Background.auto)) [
        | inl empty ↦ absurd (ground arith)
        | inr (v, picked) ↦
            changed _ _ _ _ _ d d' v (some (wire_json d.request.parameters.background))
              (some (wire_json v)) "normalized_to_provider_value"
              (pick-contains c.backgrounds Background.auto v picked) (λ _. lax) (ground arith)
      ]
    ]
  ]

  pub moderation-Stage :
      negotiate_moderation c d ≡ ok d'
      → Stage true
          (λ v. contains c.moderation v ≡ true)
          "parameters.moderation"
          set_moderation
          d.request.parameters.moderation
          d
          d'
  unfolding negotiate_moderation record_change
  moderation-Stage h = elim (Bool-cases (contains c.moderation d.request.parameters.moderation)) [
    | inl fit ↦ stayed _ _ _ _ _ d d' fit refl (ground arith)
    | inr other ↦ elim (Bool-cases (is_strict d.request.policies.compatibility)) [
      | inl strict ↦ absurd (ground (arith, Option-cases (pick c.moderation Moderation.auto)))
      | inr lax ↦ elim (Option-cases (pick c.moderation Moderation.auto)) [
        | inl empty ↦ absurd (ground arith)
        | inr (v, picked) ↦
            changed _ _ _ _ _ d d' v (some (wire_json d.request.parameters.moderation))
              (some (wire_json v)) "normalized_to_provider_value"
              (pick-contains c.moderation Moderation.auto v picked) (λ _. lax) (ground arith)
      ]
    ]
  ]

  pub compression-Stage :
      negotiate_compression c d ≡ ok d'
      → Stage true
          (λ v. (is_some v && not (compresses d.request.parameters.output_format)) ≡ false)
          "parameters.output_compression"
          set_output_compression
          d.request.parameters.output_compression
          d
          d'
  unfolding negotiate_compression
  compression-Stage h =
      elim (Bool-cases (
        is_some d.request.parameters.output_compression
        && not (compresses d.request.parameters.output_format))) [
          | inr fit ↦ stayed _ _ _ _ _ d d' fit refl (ground arith)
          | inl other ↦ elim (Bool-cases (is_strict d.request.policies.compatibility)) [
            | inl strict ↦ absurd (ground arith)
            | inr lax ↦
                changed _ _ _ _ _ d d' none
                  (Option.map Json.number d.request.parameters.output_compression) none
                  "effective_format_has_no_compression" refl (λ _. lax) (ground arith)
          ]
        ]
