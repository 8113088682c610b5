-- ===== src/Core/Negotiation/Prompt.antt =====
-- The stage of crates/core/src/negotiation.rs for the negative prompt.
use Prim.Native.String.{◌++◌ as append}
use imagegen_bridge.Prelude.{String, Bool, true, false, Option, none, some, if◌then◌else◌}
use imagegen_bridge.Core.Error.{Json, Result, ok, err, ◌>>=◌}
use imagegen_bridge.Core.Parameters.{NegativePromptMode}
use imagegen_bridge.Core.Capabilities.{ProviderCapabilities, SupportLevel}
use imagegen_bridge.Core.Negotiation.Checks.{unsupported}
use imagegen_bridge.Core.Negotiation.Recording.{Draft, record_optional}

unfoldable pub merged : Draft → String → Draft
merged d negative = record {
  request = record d.request {
    prompt =
        append (append d.request.prompt "\n\nNegative constraints (avoid these elements): ")
          negative;
    negative_prompt = none;
  };
  normalizations =
      record_optional d.normalizations "negative_prompt" (some (Json.bool true))
        (some (Json.text "merged_into_prompt")) "negative_prompt_prompt_merge";
}

module _ {F : Type 0} where
  -- Whether a negative prompt is merged into the prompt (`merge` of the source).
  unfoldable pub merges : ProviderCapabilities F → NegativePromptMode → SupportLevel → Result Bool
  merges c NegativePromptMode.reject _ =
      err (unsupported c "negative_prompt" "negative prompt is rejected by request policy")
  merges c NegativePromptMode.native SupportLevel.native = ok false
  merges c NegativePromptMode.native _ =
      err (unsupported c "negative_prompt" "provider does not support a native negative prompt")
  merges c NegativePromptMode.merge _ = ok true
  merges c NegativePromptMode.auto SupportLevel.native = ok false
  merges c NegativePromptMode.auto SupportLevel.emulated = ok true
  merges c NegativePromptMode.auto SupportLevel.unsupported =
      err (
        unsupported c "negative_prompt" "provider cannot honor a negative prompt under auto policy")

  unfoldable pub negative_stage : ProviderCapabilities F → Draft → Option String → Result Draft
  unfolding merges merged
  negative_stage c d none = ok d
  negative_stage c d (some negative) = do
    merge ← merges c d.request.policies.negative_prompt c.negative_prompt
    if merge then ok (merged d negative) else ok d

  unfoldable pub negotiate_negative_prompt : ProviderCapabilities F → Draft → Result Draft
  unfolding negative_stage
  negotiate_negative_prompt c d = negative_stage c d d.request.negative_prompt
