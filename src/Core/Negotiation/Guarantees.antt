-- ===== src/Core/Negotiation/Guarantees.antt =====
-- What the caller of `negotiate_request` in crates/core/src/negotiation.rs may rely on.
pub mod Honesty
pub mod Idempotence
pub mod Refusal
use mathlib.Core.Path.{ap}
use imagegen_bridge.Prelude.{
  ℕ, ◌≤◌, String, ◌≡◌, refl, sym, subst, ◌⊎◌, inl, inr, ◌∙◌, Bool, true, false, ◌&&◌, ◌||◌, not,
  Option, none, some, List, [], ◌∷◌, arith, ltb, is_some, ◌==◌, Bool-cases, if◌then◌else◌,
}
use imagegen_bridge.Core.Error.{BridgeError, Result, ok, err, ◌>>=◌, ◌>>◌, >>=-eq-ok}
use imagegen_bridge.Core.Request.{ImageRequest, GenerationParameters}
use imagegen_bridge.Core.Parameters.{default_size, CompatibilityMode}
use imagegen_bridge.Core.Parameters.Wire.{
  contains, quality_wire, output_format_wire, background_wire, moderation_wire, image_action_wire,
  size_wire,
}
use imagegen_bridge.Core.Capabilities.{
  Floats, ProviderCapabilities, in_range, is_unsupported, validate, reject_when,
}
use imagegen_bridge.Core.Negotiation.{
  NegotiatedRequest, checks, stages, revised_check, negotiate_request,
}
use imagegen_bridge.Core.Negotiation.Recording.{Draft, is_strict, compresses}
use imagegen_bridge.Core.Response.{Normalization}
use imagegen_bridge.Core.Negotiation.SizeStage.{size_supported}
use imagegen_bridge.Core.Negotiation.Choice.{mentions}
use imagegen_bridge.Core.Negotiation.Choice.Rest.{Consumed}
use imagegen_bridge.Core.Negotiation.Outcome.{Field, Since, Untouched}
use imagegen_bridge.Core.Negotiation.Outcome.Tails.{ActionRest}
use imagegen_bridge.Core.Negotiation.Outcome.Chain.{stages-Since}

pub reject_when-passes :
    {A : Type 0} (b : Bool) (e : BridgeError) (k : Result A) {a : A}
    → (reject_when b e >> k) ≡ ok a
    → (b ≡ false) × (k ≡ ok a)
reject_when-passes true e k h = cc
reject_when-passes false e k h = (refl, h)

ordered : (a b : ℕ) → ltb b a ≡ false → a ≤ b
ordered a b h = ground arith

counts_ordered : (a b : ℕ) → (a == 0 || ltb b a) ≡ false → a ≤ b
counts_ordered a b h = ground arith

module _ {F : Type 0} ⦃fl : Floats F⦄ where
  -- The provider can serve every negotiated field of the request as it stands.
  pub record Accepts (c : ProviderCapabilities F) (r : ImageRequest) : Type 0 where
    pub action : contains c.actions r.parameters.action ≡ true
    pub n : in_range c.count r.parameters.n ≡ true
    pub size : size_supported r.parameters.size c ≡ true
    pub aspect_ratio : (is_some r.parameters.aspect_ratio && is_unsupported c.aspect_ratio) ≡ false
    pub resolution : (is_some r.parameters.resolution && is_unsupported c.resolution) ≡ false
    pub quality : contains c.qualities r.parameters.quality ≡ true
    pub output_format : contains c.output_formats r.parameters.output_format ≡ true
    pub output_compression :
        (is_some r.parameters.output_compression && not (compresses r.parameters.output_format))
        ≡ false
    pub background : contains c.backgrounds r.parameters.background ≡ true
    pub moderation : contains c.moderation r.parameters.moderation ≡ true
    pub partial_images : in_range c.partial_images r.parameters.partial_images ≡ true
    pub negative_prompt : Consumed c r.policies.negative_prompt r.negative_prompt

  validate-Ordered :
      (c : ProviderCapabilities F)
      → validate c ≡ ok tt
      → (c.count.min ≤ c.count.max) × (c.partial_images.min ≤ c.partial_images.max)
  unfolding validate
  validate-Ordered c h =
      let (counts, h1) = reject_when-passes _ _ _ h in
      let (batching, h2) = reject_when-passes _ _ _ h1 in
      let (partial, h3) = reject_when-passes _ _ _ h2 in
      (
        counts_ordered c.count.min c.count.max counts,
        ordered c.partial_images.min c.partial_images.max partial,
      )

  pub negotiated :
      (c : ProviderCapabilities F) (r : ImageRequest) (n : NegotiatedRequest)
      → negotiate_request r c ≡ ok n
      → (checks r c ≡ ok tt)
        × (stages c (record { request = r; normalizations = [] })
            ≡ ok (record { request = n.effective_request; normalizations = n.normalizations }))
        × (revised_check r c ≡ ok tt)
        × (n.requested ≡ r.parameters)
  unfolding negotiate_request
  negotiated c r n h =
      let (u, checked, h1) = >>=-eq-ok (checks r c) _ h in
      let (d, staged, h2) =
        >>=-eq-ok (stages c (record { request = r; normalizations = [] })) _ h1 in
      let (v, revised, h3) = >>=-eq-ok (revised_check r c) _ h2 in
      let same : record {
        requested = r.parameters;
        effective_request = d.request;
        normalizations = d.normalizations;
      }
          ≡ n =
        cc in
      (
        checked,
        staged
            ∙ ap
                (λ m.
                  ok (record { request = m.effective_request; normalizations = m.normalizations }))
                same,
        revised,
        sym (ap (λ m. m.requested) same),
      )

  pub checks-validate :
      (c : ProviderCapabilities F) (r : ImageRequest) → checks r c ≡ ok tt → validate c ≡ ok tt
  unfolding checks
  checks-validate c r h = let (u, e, rest) = >>=-eq-ok (validate c) _ h in e

  module _ (c : ProviderCapabilities F) (r : ImageRequest) (n : NegotiatedRequest)
      (no_auto : contains c.sizes.allowed default_size ≡ false) where
    pub negotiated-Since :
        negotiate_request r c ≡ ok n
        → Since
            (ActionRest c r
              (record { request = n.effective_request; normalizations = n.normalizations }))
            (Unit {0})
            (record { request = r; normalizations = [] })
            (record { request = n.effective_request; normalizations = n.normalizations })
    negotiated-Since h =
        let (checked, staged, revised, kept) = negotiated c r n h in
        stages-Since c (validate-Ordered c (checks-validate c r checked)) no_auto r _ staged

    -- Whatever request the negotiation returns, the provider can serve every negotiated field of it
    -- as it stands, when the provider does not list the size `auto` among its explicit sizes.
    pub negotiate_request-Accepts : negotiate_request r c ≡ ok n → Accepts c n.effective_request
    negotiate_request-Accepts h =
        let i = negotiated-Since h in
        let (
          action,
          (
            count,
            (
              size,
              (
                aspect_ratio,
                (
                  resolution,
                  (
                    quality,
                    (
                      output_format,
                      (compression, (background, (moderation, (partial_images, prompts)))),
                    ),
                  ),
                ),
              ),
            ),
          ),
        ) =
          i.rest in
        record {
          action = action.fits;
          n = count.fits;
          size = size.fits;
          aspect_ratio = aspect_ratio.fits;
          resolution = resolution.fits;
          quality = quality.fits;
          output_format = output_format.fits;
          output_compression = compression.fits;
          background = background.fits;
          moderation = moderation.fits;
          partial_images = partial_images.fits;
          negative_prompt =
              subst (λ p. Consumed c p.negative_prompt n.effective_request.negative_prompt)
                (sym i.untouched.5) prompts.fits;
        }

    -- The negotiation leaves the operation, routing, session, output, policies, identification,
    -- timeout, user, failure policy and input fidelity of the request as they were, and returns the
    -- parameters that were asked for beside the effective request, when the provider does not list
    -- the size `auto` among its explicit sizes.
    pub negotiate_request-Untouched :
        negotiate_request r c ≡ ok n
        → Untouched r n.effective_request × (n.requested ≡ r.parameters)
    negotiate_request-Untouched h =
        let (checked, staged, revised, kept) = negotiated c r n h in
        ((negotiated-Since h).untouched, kept)
