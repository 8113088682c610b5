-- ===== src/Core/Negotiation/Choice/Counts.antt =====
-- The action, the counts and the hints after their stages.
use mathlib.Core.Bool.{false≢true}
use mathlib.Core.Option
use imagegen_bridge.Core.Negotiation.Checks.{wire_json}
use imagegen_bridge.Prelude.{
  ◌≤◌, ◌≡◌, refl, inl, inr, true, false, none, some, arith, Bool-cases, is_some, ◌&&◌,
}
use imagegen_bridge.Core.Error.{Json, ok}
use imagegen_bridge.Core.Parameters.{ImageAction}
use imagegen_bridge.Core.Parameters.Wire.{
  contains, quality_wire, output_format_wire, background_wire, moderation_wire, image_action_wire,
  resolution_wire,
}
use imagegen_bridge.Core.Capabilities.{ProviderCapabilities, in_range, is_unsupported}
use imagegen_bridge.Core.Negotiation.Recording.{Draft, is_strict, record_change, clamp}
use imagegen_bridge.Core.Negotiation.Stages.{
  negotiate_action, negotiate_count, negotiate_aspect_ratio, negotiate_resolution,
  negotiate_partial_images,
}
use imagegen_bridge.Core.Negotiation.Choice.{
  Stage, stayed, changed, set_action, set_n, set_aspect_ratio, set_resolution, set_partial_images,
  clamp-in_range,
}

module _ {F : Type 0} (c : ProviderCapabilities F) (d d' : Draft) where
  pub action-Stage :
      negotiate_action c d ≡ ok d'
      → Stage false
          (λ a. contains c.actions a ≡ true)
          "parameters.action"
          set_action
          d.request.parameters.action
          d
          d'
  unfolding negotiate_action record_change
  action-Stage h = elim (Bool-cases (contains c.actions d.request.parameters.action)) [
    | inl fit ↦ stayed _ _ _ _ _ d d' fit refl (ground arith)
    | inr other ↦ elim (Bool-cases (contains c.actions ImageAction.auto)) [
      | inl fit ↦
          changed _ _ _ _ _ d d' ImageAction.auto (some (wire_json d.request.parameters.action))
            (some (wire_json ImageAction.auto)) "provider_uses_automatic_action" fit
            (λ e. absurd (false≢true e)) (ground arith)
      | inr none_fits ↦ absurd (ground arith)
    ]
  ]

  pub count-Stage :
      c.count.min ≤ c.count.max
      → negotiate_count c d ≡ ok d'
      → Stage true (λ n. in_range c.count n ≡ true) "parameters.n" set_n d.request.parameters.n d d'
  unfolding negotiate_count record_change
  count-Stage ordered h = elim (Bool-cases (in_range c.count d.request.parameters.n)) [
    | inl fit ↦ stayed _ _ _ _ _ d d' fit refl (ground arith)
    | inr other ↦ elim (Bool-cases (is_strict d.request.policies.compatibility)) [
      | inl strict ↦ absurd (ground arith)
      | inr lax ↦
          changed _ _ _ _ _ d d' (clamp d.request.parameters.n c.count)
            (some (Json.number d.request.parameters.n))
            (some (Json.number (clamp d.request.parameters.n c.count))) "clamped_to_provider_range"
            (clamp-in_range c.count d.request.parameters.n ordered) (λ _. lax) (ground arith)
    ]
  ]

  pub partial_images-Stage :
      c.partial_images.min ≤ c.partial_images.max
      → negotiate_partial_images c d ≡ ok d'
      → Stage true
          (λ n. in_range c.partial_images n ≡ true)
          "parameters.partial_images"
          set_partial_images
          d.request.parameters.partial_images
          d
          d'
  unfolding negotiate_partial_images record_change
  partial_images-Stage ordered h =
      elim (Bool-cases (in_range c.partial_images d.request.parameters.partial_images)) [
        | inl fit ↦ stayed _ _ _ _ _ d d' fit refl (ground arith)
        | inr other ↦ elim (Bool-cases (is_strict d.request.policies.compatibility)) [
          | inl strict ↦ absurd (ground arith)
          | inr lax ↦
              changed _ _ _ _ _ d d' (clamp d.request.parameters.partial_images c.partial_images)
                (some (Json.number d.request.parameters.partial_images))
                (some (Json.number (clamp d.request.parameters.partial_images c.partial_images)))
                "clamped_to_provider_range"
                (clamp-in_range c.partial_images d.request.parameters.partial_images ordered)
                (λ _. lax) (ground arith)
        ]
      ]

  pub aspect_ratio-Stage :
      negotiate_aspect_ratio c d ≡ ok d'
      → Stage true
          (λ v. (is_some v && is_unsupported c.aspect_ratio) ≡ false)
          "parameters.aspect_ratio"
          set_aspect_ratio
          d.request.parameters.aspect_ratio
          d
          d'
  unfolding negotiate_aspect_ratio
  aspect_ratio-Stage h =
      elim (Bool-cases
        (is_some d.request.parameters.aspect_ratio && is_unsupported c.aspect_ratio)) [
          | inr fit ↦ stayed _ _ _ _ _ d d' fit refl (ground arith)
          | inl other ↦ elim (Bool-cases (is_strict d.request.policies.compatibility)) [
            | inl strict ↦ absurd (ground arith)
            | inr lax ↦
                changed _ _ _ _ _ d d' none
                  (Option.map (λ a. Json.text a.value) d.request.parameters.aspect_ratio) none
                  "provider_does_not_support_hint" refl (λ _. lax) (ground arith)
          ]
        ]

  pub resolution-Stage :
      negotiate_resolution c d ≡ ok d'
      → Stage true
          (λ v. (is_some v && is_unsupported c.resolution) ≡ false)
          "parameters.resolution"
          set_resolution
          d.request.parameters.resolution
          d
          d'
  unfolding negotiate_resolution
  resolution-Stage h =
      elim (Bool-cases (is_some d.request.parameters.resolution && is_unsupported c.resolution)) [
        | inr fit ↦ stayed _ _ _ _ _ d d' fit refl (ground arith)
        | inl other ↦ elim (Bool-cases (is_strict d.request.policies.compatibility)) [
          | inl strict ↦ absurd (ground arith)
          | inr lax ↦
              changed _ _ _ _ _ d d' none (Option.map wire_json d.request.parameters.resolution)
                none "provider_does_not_support_hint" refl (λ _. lax) (ground arith)
        ]
      ]
