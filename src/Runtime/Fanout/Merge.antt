-- ===== src/Runtime/Fanout/Merge.antt =====
-- How crates/runtime/src/fanout/mod.rs joins the usage, session, prompt and warnings of its responses.
use imagegen_bridge.Prelude.{
  ℕ, String, Bool, true, false, ◌&&◌, Option, none, some, List, [], ◌∷◌, ◌++◌, if◌then◌else◌,
  text_eq, option_text_eq, insert, lookup, set_extend, saturating_add_u64,
}
use imagegen_bridge.Core.Response.{
  GeneratedImage, ImageFailure, Usage, default_usage, SessionMetadata, ImageResponse,
}

unfoldable pub same_identity : ImageResponse → List ImageResponse → Bool
same_identity first [] = true
same_identity first (response ∷ responses) =
    text_eq response.provider first.provider
    && text_eq response.model first.model
    && same_identity first responses

unfoldable pub sum_option : Option ℕ → Option ℕ → Option ℕ
sum_option none none = none
sum_option none (some b) = some (saturating_add_u64 0 b)
sum_option (some a) none = some (saturating_add_u64 a 0)
sum_option (some a) (some b) = some (saturating_add_u64 a b)

-- The counts by key, summed.
unfoldable pub merge_counts : List (String × ℕ) → List (String × ℕ) → List (String × ℕ)
merge_counts target [] = target
merge_counts target ((key, value) ∷ more) =
    merge_counts
      (insert key (saturating_add_u64 (elim (lookup key target) [ none ↦ 0 | some n ↦ n ]) value)
        target)
      more

unfoldable pub merge_usage : Usage → Usage → Usage
unfolding sum_option merge_counts
merge_usage target value = record {
  input_tokens = sum_option target.input_tokens value.input_tokens;
  output_tokens = sum_option target.output_tokens value.output_tokens;
  total_tokens = sum_option target.total_tokens value.total_tokens;
  provider = merge_counts target.provider value.provider;
}

-- The usage of the responses that have one, none if there is none.
unfoldable pub usage_of : Option Usage → List ImageResponse → Option Usage
unfolding merge_usage
usage_of usage [] = usage
usage_of usage (response ∷ responses) = elim response.usage [
  | none ↦ usage_of usage responses
  | some next ↦ usage_of (some (merge_usage (or_default usage) next)) responses
]
  where
    or_default : Option Usage → Usage
    or_default none = default_usage
    or_default (some u) = u

-- Whether every response continued the session.
unfoldable pub same_session : SessionMetadata → List ImageResponse → Bool
same_session first [] = true
same_session first (response ∷ responses) = elim response.session [
  | none ↦ false
  | some session ↦
      option_text_eq session.key first.key
      && option_text_eq session.thread_id first.thread_id
      && same_session first responses
]

unfoldable pub merge_sessions : List ImageResponse → Option SessionMetadata
unfolding same_session
merge_sessions [] = none
merge_sessions (response ∷ responses) = elim response.session [
  | none ↦ none
  | some first ↦ if same_session first responses then some first else none
]

unfoldable pub first_revised_prompt : List ImageResponse → Option String
first_revised_prompt [] = none
first_revised_prompt (response ∷ responses) = elim response.revised_prompt [
  | none ↦ first_revised_prompt responses
  | some prompt ↦ some prompt
]

unfoldable pub all_images : List ImageResponse → List GeneratedImage
all_images [] = []
all_images (response ∷ responses) = response.images ++ all_images responses

unfoldable pub all_failures : List ImageResponse → List ImageFailure
all_failures [] = []
all_failures (response ∷ responses) = response.failures ++ all_failures responses

unfoldable pub all_warnings : List String → List ImageResponse → List String
all_warnings set [] = set
all_warnings set (response ∷ responses) = all_warnings (set_extend set response.warnings) responses
