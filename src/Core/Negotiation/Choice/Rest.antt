-- ===== src/Core/Negotiation/Choice/Rest.antt =====
-- The size and the negative prompt after their stages.
use mathlib.Core.Bool.{false≢true}
use imagegen_bridge.Prelude.{
  String, ◌≡◌, refl, subst, inl, inr, true, false, Option, none, some, List, [], ◌∷◌, arith,
  Bool-cases, Option-cases, not, ◌&&◌, head?,
}
use imagegen_bridge.Core.Error.{Result-cases, Json, ok}
use imagegen_bridge.Core.Request.{ImageRequest}
use imagegen_bridge.Core.Parameters.{ImageSize}
use imagegen_bridge.Core.Parameters.Wire.{
  size_eq, contains, contains-head, quality_wire, output_format_wire, background_wire,
  moderation_wire, image_action_wire, size_wire,
}
use imagegen_bridge.Core.Capabilities.{ProviderCapabilities}
use imagegen_bridge.Core.Negotiation.Recording.{Draft, is_strict, record_change}
use imagegen_bridge.Core.Negotiation.Choice.{Stage, stayed, changed, set_size}
use imagegen_bridge.Core.Capabilities.{Floats}
use imagegen_bridge.Core.Parameters.{NegativePromptMode, default_size}
use imagegen_bridge.Core.Parameters.Sizes.{is_auto}
use imagegen_bridge.Core.Negotiation.SizeStage.{size_supported, size_fallback, negotiate_size}
use imagegen_bridge.Core.Negotiation.Prompt.{merges, merged, negotiate_negative_prompt}

-- A list without the size `auto` begins with an explicit size.
head_explicit :
    (x : ImageSize) (xs : List ImageSize)
    → contains (x ∷ xs) default_size ≡ false
    → is_auto x ≡ false
unfolding contains is_auto size_eq
head_explicit x xs h = ground arith

module _ {F : Type 0} ⦃fl : Floats F⦄ (c : ProviderCapabilities F) (d d' : Draft) where
  listed-supported :
      (v : ImageSize)
      → is_auto v ≡ false
      → contains c.sizes.allowed v ≡ true
      → size_supported v c ≡ true
  unfolding size_supported
  listed-supported v explicit listed = rw (explicit, listed, size_supported)

  auto-supported : c.sizes.auto ≡ true → size_supported default_size c ≡ true
  unfolding size_supported is_auto
  auto-supported h = h

  head-supported :
      (xs : List ImageSize) (v : ImageSize)
      → c.sizes.allowed ≡ xs
      → contains xs default_size ≡ false
      → head? xs ≡ some v
      → size_supported v c ≡ true
  head-supported [] v e no_auto h = cc
  head-supported (x ∷ xs) v e no_auto h =
      let same : x ≡ v = cc in
      subst (λ a. size_supported a c ≡ true) same
        (listed-supported x (head_explicit x xs no_auto) (rw e (contains-head x xs)))

  fallback-supported :
      (requested v : ImageSize)
      → contains c.sizes.allowed default_size ≡ false
      → size_fallback requested c ≡ some v
      → size_supported v c ≡ true
  unfolding size_fallback
  fallback-supported requested v no_auto h =
      elim (Bool-cases (not (is_auto requested) && c.sizes.auto)) [
        | inl auto ↦
            let same : default_size ≡ v = ground arith in
            subst (λ a. size_supported a c ≡ true) same (auto-supported (ground arith))
        | inr listed ↦ head-supported c.sizes.allowed v refl no_auto (ground arith)
      ]

  pub size-Stage :
      contains c.sizes.allowed default_size ≡ false
      → negotiate_size c d ≡ ok d'
      → Stage true
          (λ v. size_supported v c ≡ true)
          "parameters.size"
          set_size
          d.request.parameters.size
          d
          d'
  unfolding negotiate_size record_change
  size-Stage no_auto h = elim (Bool-cases (size_supported d.request.parameters.size c)) [
    | inl fit ↦ stayed _ _ _ _ _ d d' fit refl (ground arith)
    | inr other ↦ elim (Bool-cases (is_strict d.request.policies.compatibility)) [
      | inl strict ↦
          absurd (ground (arith, Option-cases (size_fallback d.request.parameters.size c)))
      | inr lax ↦ elim (Option-cases (size_fallback d.request.parameters.size c)) [
        | inl empty ↦ absurd (ground arith)
        | inr (v, picked) ↦
            changed _ _ _ _ _ d d' v (some (Json.text d.request.parameters.size.value))
              (some (Json.text v.value)) "normalized_to_provider_size"
              (fallback-supported d.request.parameters.size v no_auto picked) (λ _. lax)
              (ground arith)
      ]
    ]
  ]

-- The request with another prompt and negative prompt.
abbrev pub set_prompts : String × Option String → ImageRequest → ImageRequest
set_prompts v r = record r { prompt = v.0; negative_prompt = v.1 }

-- A negative prompt that the provider consumes as it is, or none.
abbrev pub Consumed :
    {F : Type 0} → ProviderCapabilities F → NegativePromptMode → Option String → Type 0
Consumed c mode none = Unit {0}
Consumed c mode (some s) = merges c mode c.negative_prompt ≡ ok false

module _ {F : Type 0} (c : ProviderCapabilities F) (d d' : Draft) where
  prompt_none-Stage :
      d.request.negative_prompt ≡ none
      → negotiate_negative_prompt c d ≡ ok d'
      → Stage false
          (λ v. Consumed c d.request.policies.negative_prompt v.1)
          "negative_prompt"
          set_prompts
          (d.request.prompt, d.request.negative_prompt)
          d
          d'
  unfolding negotiate_negative_prompt
  prompt_none-Stage e h = stayed _ _ _ _ _ d d' (rw e tt) refl (ground arith)

  pub prompt-Stage :
      negotiate_negative_prompt c d ≡ ok d'
      → Stage false
          (λ v. Consumed c d.request.policies.negative_prompt v.1)
          "negative_prompt"
          set_prompts
          (d.request.prompt, d.request.negative_prompt)
          d
          d'
  unfolding negotiate_negative_prompt merged
  prompt-Stage h = elim (Option-cases d.request.negative_prompt) [
    | inl e ↦ prompt_none-Stage e h
    | inr (s, e) ↦
        elim (Result-cases (merges c d.request.policies.negative_prompt c.negative_prompt)) [
          | inl (false, native) ↦
              stayed _ _ _ _ _ d d' (rw (e, Consumed) native) refl (ground arith)
          | inl (true, merging) ↦
              changed _ _ _ _ _ d d' ((merged d s).request.prompt, none) (some (Json.bool true))
                (some (Json.text "merged_into_prompt")) "negative_prompt_prompt_merge" tt
                (λ g. absurd (false≢true g)) (ground arith)
          | inr (x, refused) ↦ absurd (ground arith)
        ]
  ]
