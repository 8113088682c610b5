-- ===== src/Core/Negotiation/Outcome.antt =====
-- What the stages of crates/core/src/negotiation.rs, one after the other, make of the fields of a
-- request.
pub mod Fields
pub mod Tails
pub mod Late
pub mod Chain
use mathlib.Core.Option
use imagegen_bridge.Prelude.{
  ℕ, ◌≤◌, String, ◌≡◌, refl, sym, subst, ◌⊎◌, ◌∙◌, inl, inr, Bool, true, false, ◌||◌, ◌&&◌, not,
  Option, none, some, List, [], ◌∷◌, ◌++◌, arith, is_some, text_eq,
}
use imagegen_bridge.Core.Error.{Result, ok, err, ◌>>=◌, >>=-eq-ok}
use imagegen_bridge.Core.Request.{ImageRequest, GenerationParameters}
use imagegen_bridge.Core.Parameters.{CompatibilityMode, default_size}
use imagegen_bridge.Core.Parameters.Wire.{
  contains, quality_wire, output_format_wire, background_wire, moderation_wire, image_action_wire,
  size_wire,
}
use imagegen_bridge.Core.Capabilities.{
  Floats, ProviderCapabilities, in_range, is_unsupported, validate,
}
use imagegen_bridge.Core.Negotiation.{stages}
use imagegen_bridge.Core.Negotiation.Recording.{Draft, is_strict, compresses}
use imagegen_bridge.Core.Response.{Normalization}
use imagegen_bridge.Core.Negotiation.Stages.{
  negotiate_action, negotiate_count, negotiate_aspect_ratio, negotiate_resolution,
  negotiate_partial_images,
}
use imagegen_bridge.Core.Negotiation.Values.{
  negotiate_quality, negotiate_output_format, negotiate_compression, negotiate_background,
  negotiate_moderation,
}
use imagegen_bridge.Core.Negotiation.SizeStage.{negotiate_size, size_supported}
use imagegen_bridge.Core.Negotiation.Prompt.{negotiate_negative_prompt}
use imagegen_bridge.Core.Negotiation.Choice.{
  Stage, Told, mentions, set_action, set_n, set_size, set_aspect_ratio, set_resolution, set_quality,
  set_output_format, set_output_compression, set_background, set_moderation, set_partial_images,
}
use imagegen_bridge.Core.Negotiation.Choice.Counts.{
  action-Stage, count-Stage, partial_images-Stage, aspect_ratio-Stage, resolution-Stage,
}
use imagegen_bridge.Core.Negotiation.Choice.Listed.{
  quality-Stage, output_format-Stage, compression-Stage, background-Stage, moderation-Stage,
}
use imagegen_bridge.Core.Negotiation.Choice.Rest.{size-Stage, prompt-Stage, set_prompts, Consumed}

-- What became of one field: its new value fits, it is the old one or the change is in the list, and
-- a stage that is guarded kept the old one of a strict request.
pub record Field {A : Type 0} (guarded : Bool) (Fits : A → Type 0) (field : String)
    (mode : CompatibilityMode) (ns : List Normalization) (old new : A) : Type 0 where
  pub fits : Fits new
  pub told : (new ≡ old) ⊎ (mentions field ns ≡ true)
  pub kept : guarded ≡ true → is_strict mode ≡ true → new ≡ old

pub mentions-left :
    (field : String) (xs ys : List Normalization)
    → mentions field xs ≡ true
    → mentions field (xs ++ ys) ≡ true
unfolding mentions
mentions-left field [] ys h = cc
mentions-left field (x ∷ xs) ys h = ground (arith, mentions-left field xs ys)

pub mentions-right :
    (field : String) (xs ys : List Normalization)
    → mentions field ys ≡ true
    → mentions field (xs ++ ys) ≡ true
unfolding mentions
mentions-right field [] ys h = h
mentions-right field (x ∷ xs) ys h = ground (arith, mentions-right field xs ys h)

pub Stage-Field :
    {A : Type 0} {guarded : Bool} {Fits : A → Type 0} {field : String}
    {put : A → ImageRequest → ImageRequest} {old new : A} {x e : Draft} {ns : List Normalization}
    (s : Stage guarded Fits field put old x e)
    → new ≡ s.value
    → (mentions field s.more ≡ true → mentions field ns ≡ true)
    → Field guarded Fits field x.request.policies.compatibility ns old new
Stage-Field {Fits = Fits} s same grows = record {
  fits = subst Fits (sym same) s.fits;
  told = elim s.told [ inl (kept, e) ↦ inl (same ∙ kept) | inr m ↦ inr (grows m) ];
  kept = λ g strict. same ∙ s.kept g strict;
}

-- The fields that no stage touches.
abbrev pub Untouched : ImageRequest → ImageRequest → Type 0
Untouched r r' =
    (r'.version ≡ r.version)
    × (r'.operation ≡ r.operation)
    × (r'.routing ≡ r.routing)
    × (r'.session ≡ r.session)
    × (r'.output ≡ r.output)
    × (r'.policies ≡ r.policies)
    × (r'.idempotency_key ≡ r.idempotency_key)
    × (r'.timeout_ms ≡ r.timeout_ms)
    × (r'.user ≡ r.user)
    × (r'.parameters.failure_policy ≡ r.parameters.failure_policy)
    × (r'.parameters.input_fidelity ≡ r.parameters.input_fidelity)

-- What became of a draft on the way to the last one: the fields still to come, those that are done,
-- those that no stage touches, and the list, which only grows.
pub record Since (Rest Keeps : Type 0) (x d' : Draft) : Type 0 where
  pub rest : Rest
  pub keeps : Keeps
  pub untouched : Untouched x.request d'.request
  pub grows :
      (field : String)
      → mentions field x.normalizations ≡ true
      → mentions field d'.normalizations ≡ true

-- A stage that succeeded, followed by the rest of the stages on the draft that it made.
abbrev pub after :
    {A : Type 0} → (A → ImageRequest → ImageRequest) → Draft → A → List Normalization → Draft
after put d value more = record {
  request = put value d.request;
  normalizations = d.normalizations ++ more;
}

pub advance :
    {A : Type 0} {guarded : Bool} {Fits : A → Type 0} {field : String}
    {put : A → ImageRequest → ImageRequest} {old : A} (stage rest : Draft → Result Draft)
    (d d' : Draft)
    → ((e : Draft) → stage d ≡ ok e → Stage guarded Fits field put old d e)
    → (stage d >>= rest) ≡ ok d'
    → (e : Draft) × (s : Stage guarded Fits field put old d e) × (rest (after put d s.value s.more)
        ≡ ok d')
advance stage rest d d' describe h =
    let (e, made, then_rest) = >>=-eq-ok (stage d) rest h in
    let s = describe e made in (e, s, subst (λ x. rest x ≡ ok d') s.result then_rest)
