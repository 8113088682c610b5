-- ===== src/Core/Negotiation/Guarantees/Refusal.antt =====
-- How `negotiate_request` of crates/core/src/negotiation.rs refuses a request.
use imagegen_bridge.Prelude.{
  ℕ, String, ◌≡◌, refl, subst, ◌⊎◌, inl, inr, Bool, true, false, Option, none, some, List,
  if◌then◌else◌,
}
use imagegen_bridge.Core.Error.{
  ErrorCode, Json, BridgeError, bridge_error, with_provider, with_detail, Result, ok, err, ◌>>=◌,
}
use imagegen_bridge.Core.Parameters.{
  CompatibilityMode, SessionMode, InputFidelity, NegativePromptMode,
}
use imagegen_bridge.Core.Parameters.Wire.{Wire}
use imagegen_bridge.Core.Request.{ImageOperation, ImageRequest}
use imagegen_bridge.Core.Capabilities.{
  SupportLevel, Floats, ProviderCapabilities, validate, reject_when, invalid_capability,
}
use imagegen_bridge.Core.Negotiation.{checks, stages, revised_check, negotiate_request}
use imagegen_bridge.Core.Negotiation.Checks.{
  model_check, operation_check, mask_error, reference_check, edit_check, session_check,
  fidelity_check, unsupported, check_model, check_operation, check_input_counts, check_sessions,
  check_user_attribution, check_input_fidelity,
}
use imagegen_bridge.Core.Negotiation.Recording.{Draft, or_fail, normalize_or_reject}
use imagegen_bridge.Core.Response.{Normalization}
use imagegen_bridge.Core.Negotiation.Stages.{
  negotiate_action, negotiate_count, negotiate_aspect_ratio, negotiate_resolution,
  negotiate_partial_images,
}
use imagegen_bridge.Core.Negotiation.Values.{
  negotiate_quality, negotiate_output_format, negotiate_compression, negotiate_background,
  negotiate_moderation,
}
use imagegen_bridge.Core.Negotiation.SizeStage.{negotiate_size}
use imagegen_bridge.Core.Negotiation.Prompt.{negative_stage, negotiate_negative_prompt, merges}

module _ {F : Type 0} ⦃fl : Floats F⦄ (c : ProviderCapabilities F) where
  -- An error about the provider's capabilities, which names the provider and is not to be retried.
  pub record Refused (e : BridgeError) : Type 0 where
    pub code : (e.code ≡ ErrorCode.unsupported_capability) ⊎ (e.code ≡ ErrorCode.protocol)
    pub provider : e.provider ≡ some c.provider
    pub retryable : e.retryable ≡ false

  abbrev Refuses : {A : Type 0} → Result A → Type 0
  Refuses {A = A} m = (e : BridgeError) → m ≡ err e → Refused e

  unsupported-Refused : (field message : String) → Refused (unsupported c field message)
  unfolding unsupported bridge_error with_provider with_detail
  unsupported-Refused field message = record { code = inl refl; provider = refl; retryable = refl }

  with_detail-Refused :
      (key : String) (v : Json) (e : BridgeError) → Refused e → Refused (with_detail key v e)
  unfolding with_detail
  with_detail-Refused key v e r = record {
    code = r.code;
    provider = r.provider;
    retryable = r.retryable;
  }

  if-Refused : (b : Bool) (x y : BridgeError) → Refused x → Refused y → Refused (if b then x else y)
  if-Refused true x y hx hy = hx
  if-Refused false x y hx hy = hy

  ok-Refuses : {A : Type 0} (a : A) → Refuses (ok a)
  ok-Refuses a e h = cc

  err-Refuses : {A : Type 0} (e : BridgeError) → Refused e → Refuses {A = A} (err e)
  err-Refuses e r e' h = let same : e ≡ e' = cc in subst Refused same r

  if-Refuses :
      {A : Type 0} (b : Bool) (x y : Result A)
      → Refuses x
      → Refuses y
      → Refuses (if b then x else y)
  if-Refuses true x y hx hy = hx
  if-Refuses false x y hx hy = hy

  then-Refuses :
      {A B : Type 0} (m : Result A) (f : A → Result B)
      → Refuses m
      → ((a : A) → Refuses (f a))
      → Refuses (m >>= f)
  then-Refuses (ok a) f hm hf = hf a
  then-Refuses (err x) f hm hf = λ e h. let same : x ≡ e = cc in hm e (rw same refl)

  or_fail-Refuses :
      {A : Type 0} (o : Option A) (e : BridgeError) → Refused e → Refuses (or_fail o e)
  or_fail-Refuses none e r = err-Refuses e r
  or_fail-Refuses (some a) e r = ok-Refuses a

  normalize-Refuses :
      {A : Type 0} ⦃w : Wire A⦄ (mode : CompatibilityMode) (ns : List Normalization)
      (field : String) (x y : A)
      → Refuses (normalize_or_reject mode c ns field x y)
  unfolding normalize_or_reject
  normalize-Refuses mode ns field x y =
      search (if-Refuses, ok-Refuses, err-Refuses, unsupported-Refused)

  reject_when-Refuses :
      (b : Bool) (message : String) → Refuses (reject_when b (invalid_capability c message))
  unfolding invalid_capability bridge_error with_provider
  reject_when-Refuses true message =
      err-Refuses _ (record { code = inr refl; provider = refl; retryable = refl })
  reject_when-Refuses false message = ok-Refuses tt

  validate-Refuses : Refuses (validate c)
  unfolding validate
  validate-Refuses = search (then-Refuses, reject_when-Refuses)

  ruleset refusals = (
    if-Refuses, then-Refuses, or_fail-Refuses, normalize-Refuses, ok-Refuses, err-Refuses,
    unsupported-Refused, with_detail-Refused,
  )

  action-Refuses : (d : Draft) → Refuses (negotiate_action c d)
  unfolding negotiate_action
  action-Refuses d = search (refusals) depth 9

  count-Refuses : (d : Draft) → Refuses (negotiate_count c d)
  unfolding negotiate_count
  count-Refuses d = search refusals

  aspect_ratio-Refuses : (d : Draft) → Refuses (negotiate_aspect_ratio c d)
  unfolding negotiate_aspect_ratio
  aspect_ratio-Refuses d = search refusals

  resolution-Refuses : (d : Draft) → Refuses (negotiate_resolution c d)
  unfolding negotiate_resolution
  resolution-Refuses d = search refusals

  partial_images-Refuses : (d : Draft) → Refuses (negotiate_partial_images c d)
  unfolding negotiate_partial_images
  partial_images-Refuses d = search refusals

  quality-Refuses : (d : Draft) → Refuses (negotiate_quality c d)
  unfolding negotiate_quality
  quality-Refuses d = search refusals

  output_format-Refuses : (d : Draft) → Refuses (negotiate_output_format c d)
  unfolding negotiate_output_format
  output_format-Refuses d = search refusals

  compression-Refuses : (d : Draft) → Refuses (negotiate_compression c d)
  unfolding negotiate_compression
  compression-Refuses d = search refusals

  background-Refuses : (d : Draft) → Refuses (negotiate_background c d)
  unfolding negotiate_background
  background-Refuses d = search refusals

  moderation-Refuses : (d : Draft) → Refuses (negotiate_moderation c d)
  unfolding negotiate_moderation
  moderation-Refuses d = search refusals

  size-Refuses : (d : Draft) → Refuses (negotiate_size c d)
  unfolding negotiate_size
  size-Refuses d = search refusals

  user_attribution-Refuses : (r : ImageRequest) → Refuses (check_user_attribution r c)
  unfolding check_user_attribution
  user_attribution-Refuses r = search refusals

  model-Refuses :
      (requested effective : Option String) → Refuses (model_check c requested effective)
  unfolding model_check
  model-Refuses none _ = search refusals
  model-Refuses (some a) none = search refusals
  model-Refuses (some a) (some b) = search (refusals) depth 9

  operation-Refuses : (o : ImageOperation) → Refuses (operation_check c o)
  unfolding operation_check
  operation-Refuses (ImageOperation.generate references) = search refusals
  operation-Refuses (ImageOperation.edit images mask references) = search refusals

  reference-Refuses : (count : ℕ) → Refuses (reference_check c count)
  unfolding reference_check
  reference-Refuses count = search refusals

  mask-Refused : Refused (mask_error c)
  unfolding mask_error
  mask-Refused = search (if-Refused, unsupported-Refused, with_detail-Refused)

  edit-Refuses : (o : ImageOperation) → Refuses (edit_check c o)
  unfolding edit_check
  edit-Refuses (ImageOperation.generate references) = search refusals
  edit-Refuses (ImageOperation.edit images mask references) = search (refusals, mask-Refused)

  session-Refuses : (mode : SessionMode) → Refuses (session_check c mode)
  unfolding session_check
  session-Refuses SessionMode.isolated = search refusals
  session-Refuses SessionMode.persistent = search refusals
  session-Refuses SessionMode.thread = search refusals

  fidelity-Refuses : (o : Option InputFidelity) → Refuses (fidelity_check c o)
  unfolding fidelity_check
  fidelity-Refuses none = search refusals
  fidelity-Refuses (some requested) = search (refusals) depth 9

  merges-Refuses : (mode : NegativePromptMode) (s : SupportLevel) → Refuses (merges c mode s)
  unfolding merges
  merges-Refuses NegativePromptMode.reject _ = search refusals
  merges-Refuses NegativePromptMode.native SupportLevel.native = search refusals
  merges-Refuses NegativePromptMode.native SupportLevel.emulated = search refusals
  merges-Refuses NegativePromptMode.native SupportLevel.unsupported = search refusals
  merges-Refuses NegativePromptMode.merge _ = search refusals
  merges-Refuses NegativePromptMode.auto SupportLevel.native = search refusals
  merges-Refuses NegativePromptMode.auto SupportLevel.emulated = search refusals
  merges-Refuses NegativePromptMode.auto SupportLevel.unsupported = search refusals

  negative-Refuses : (d : Draft) (o : Option String) → Refuses (negative_stage c d o)
  unfolding negative_stage
  negative-Refuses d none = search refusals
  negative-Refuses d (some s) = search (refusals, merges-Refuses)

  checks-Refuses : (r : ImageRequest) → Refuses (checks r c)
  unfolding checks check_model check_operation check_input_counts check_sessions
      check_input_fidelity
  checks-Refuses r =
      search
        (
          then-Refuses, validate-Refuses, model-Refuses, operation-Refuses, reference-Refuses,
          edit-Refuses, session-Refuses, user_attribution-Refuses, fidelity-Refuses,
        )
        depth 12

  stages-Refuses : (d : Draft) → Refuses (stages c d)
  unfolding stages negotiate_negative_prompt
  stages-Refuses d =
      search
        (
          then-Refuses, action-Refuses, count-Refuses, size-Refuses, aspect_ratio-Refuses,
          resolution-Refuses, quality-Refuses, output_format-Refuses, compression-Refuses,
          background-Refuses, moderation-Refuses, partial_images-Refuses, negative-Refuses,
        )
        depth 16

  -- Every error of the negotiation is about the provider's capabilities: it has the code of an
  -- unsupported capability or of a protocol error, names the provider and is not to be retried.
  pub negotiate_request-Refused :
      (r : ImageRequest) (e : BridgeError) → negotiate_request r c ≡ err e → Refused e
  unfolding negotiate_request revised_check
  negotiate_request-Refused r = search (refusals, checks-Refuses, stages-Refuses) depth 12
