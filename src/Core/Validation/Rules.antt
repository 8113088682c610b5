-- ===== src/Core/Validation/Rules.antt =====
-- The rules of crates/core/src/validation.rs on the prompts, the parameters, the routes and the session.
use Prim.Native.String.{◌++◌ as append}
use imagegen_bridge.Prelude.{
  ℕ, suc, String, Bool, true, false, ◌&&◌, ◌||◌, not, Option, none, some, List, [], ◌∷◌, ◌++◌,
  length, ltb, ◌==◌, if◌then◌else◌, is_some, option_text_eq, text_len, is_blank, is_control,
  any_char,
}
use imagegen_bridge.Core.Error.{ValidationIssue}
use imagegen_bridge.Core.Parameters.{NegativePromptMode, OutputFormat, SessionMode, BatchExecution}
use imagegen_bridge.Core.Parameters.Sizes.{dimensions, is_auto}
use imagegen_bridge.Core.Parameters.Decimal.{show_nat}
use imagegen_bridge.Core.Request.{
  ImageRequest, GenerationParameters, RoutingOptions, SessionOptions, ProviderRoute, contains_route,
}

pub record RequestLimits : Type 0 where
  pub max_prompt_bytes : ℕ
  pub max_negative_prompt_bytes : ℕ
  pub max_outputs : ℕ
  pub max_inputs : ℕ
  pub max_inline_encoded_bytes : ℕ
  pub max_edge : ℕ
  pub max_timeout_ms : ℕ
  pub max_identifier_bytes : ℕ

-- RequestLimits::default
abbrev pub default_request_limits : RequestLimits
default_request_limits = record {
  max_prompt_bytes = 131_072;
  max_negative_prompt_bytes = 65_536;
  max_outputs = 16;
  max_inputs = 16;
  max_inline_encoded_bytes = 67_108_864;
  max_edge = 16_384;
  max_timeout_ms = 1_800_000;
  max_identifier_bytes = 256;
}

-- An issue, if the test is true.
abbrev pub report : Bool → String → String → String → List ValidationIssue
report false field code message = []
report true field code message = record { field = field; code = code; message = message } ∷ []

unfoldable pub prompt_issues : RequestLimits → String → List ValidationIssue
prompt_issues limits prompt =
    if is_blank prompt
    then report true "prompt" "required" "prompt must not be empty"
    else report (ltb limits.max_prompt_bytes (text_len prompt)) "prompt" "too_large"
        "prompt exceeds the configured byte limit"

abbrev pub rejects_negative : NegativePromptMode → Bool
rejects_negative NegativePromptMode.reject = true
rejects_negative _ = false

unfoldable pub negative_prompt_issues :
    RequestLimits → NegativePromptMode → Option String → List ValidationIssue
negative_prompt_issues limits mode none = []
negative_prompt_issues limits mode (some negative) =
    (if is_blank negative
      then report true "negative_prompt" "empty" "negative prompt must be omitted instead of empty"
      else report (ltb limits.max_negative_prompt_bytes (text_len negative)) "negative_prompt"
          "too_large" "negative prompt exceeds the configured byte limit")
    ++ report (rejects_negative mode) "policies.negative_prompt" "rejected_by_policy"
        "negative prompt is present while its policy is reject"

abbrev pub exceeds : ℕ → Option (ℕ × ℕ) → Bool
exceeds limit none = false
exceeds limit (some (width, height)) = ltb limit width || ltb limit height

abbrev pub above : ℕ → Option ℕ → Bool
above limit none = false
above limit (some n) = ltb limit n

abbrev pub is_png : OutputFormat → Bool
is_png OutputFormat.png = true
is_png _ = false

unfoldable pub parameter_issues : RequestLimits → GenerationParameters → List ValidationIssue
parameter_issues limits p =
    report (p.n == 0 || ltb limits.max_outputs p.n) "parameters.n" "out_of_range"
      "output count is outside the configured generic range"
    ++ report (exceeds limits.max_edge (dimensions p.size)) "parameters.size" "out_of_range"
        "an image edge exceeds the configured generic limit"
    ++ report (not (is_auto p.size) && (is_some p.aspect_ratio || is_some p.resolution))
        "parameters.size" "ambiguous"
        "explicit size cannot be combined with aspect_ratio or resolution hints"
    ++ report (above 100 p.output_compression) "parameters.output_compression" "out_of_range"
        "output compression must be between 0 and 100"
    ++ report (is_some p.output_compression && is_png p.output_format)
        "parameters.output_compression" "incompatible"
        "output compression is valid only for jpeg or webp"
    ++ report (ltb 3 p.partial_images) "parameters.partial_images" "out_of_range"
        "partial image count must be between 0 and 3"

-- validate_identifier
unfoldable pub identifier_issues : RequestLimits → String → Option String → List ValidationIssue
identifier_issues limits field none = []
identifier_issues limits field (some value) =
    if is_blank value
    then report true field "empty" "identifier must be omitted instead of empty"
    else if ltb limits.max_identifier_bytes (text_len value)
    then report true field "too_large" "identifier exceeds the configured byte limit"
    else report (any_char is_control value) field "invalid"
        "identifier must not contain control characters"

abbrev pub is_primary : RoutingOptions → ProviderRoute → Bool
is_primary routing route =
    option_text_eq routing.provider (some route.provider)
    && option_text_eq routing.model route.model

-- The loop over the fallback routes, with those that have been seen.
unfoldable pub fallback_issues :
    RequestLimits
    → RoutingOptions
    → List ProviderRoute
    → ℕ
    → List ProviderRoute
    → List ValidationIssue
unfolding identifier_issues
fallback_issues limits routing seen index [] = []
fallback_issues limits routing seen index (route ∷ rest) =
    identifier_issues limits (append field ".provider") (some route.provider)
    ++ identifier_issues limits (append field ".model") route.model
    ++ report (contains_route seen route) field "duplicate" "fallback routes must be unique"
    ++ report (is_primary routing route) field "duplicate"
        "a fallback route must differ from the explicit primary route"
    ++ fallback_issues limits routing (route ∷ seen) (suc index) rest
  where
    field : String
    field = append "routing.fallbacks[" (append (show_nat index) "]")

abbrev pub is_isolated : SessionMode → Bool
is_isolated SessionMode.isolated = true
is_isolated _ = false

abbrev pub is_parallel : BatchExecution → Bool
is_parallel BatchExecution.parallel = true
is_parallel _ = false

abbrev pub has_routes : List ProviderRoute → Bool
has_routes [] = false
has_routes (_ ∷ _) = true

unfoldable pub routing_issues : RequestLimits → ImageRequest → List ValidationIssue
unfolding identifier_issues fallback_issues
routing_issues limits r =
    identifier_issues limits "routing.provider" r.routing.provider
    ++ identifier_issues limits "routing.model" r.routing.model
    ++ report (ltb 4 (length r.routing.fallbacks)) "routing.fallbacks" "too_many"
        "at most four fallback routes may be configured"
    ++ fallback_issues limits r.routing [] 0 r.routing.fallbacks
    ++ report (has_routes r.routing.fallbacks && not (is_isolated r.session.mode))
        "routing.fallbacks" "incompatible"
        "provider fallback is supported only for isolated sessions"
    ++ report (is_parallel r.policies.batch_execution && not (is_isolated r.session.mode))
        "policies.batch_execution" "incompatible"
        "parallel batch execution requires an isolated session"
    ++ identifier_issues limits "idempotency_key" r.idempotency_key
    ++ identifier_issues limits "user" r.user

-- Absent, or empty.
abbrev pub is_missing : Option String → Bool
is_missing none = true
is_missing (some value) = text_len value == 0

unfoldable pub session_issues : SessionOptions → List ValidationIssue
session_issues session = elim session.mode [
  | SessionMode.isolated ↦
      report (is_some session.key || is_some session.thread_id) "session" "incompatible"
        "isolated mode cannot include a key or thread_id"
  | SessionMode.persistent ↦
      report (is_missing session.key) "session.key" "required"
        "persistent mode requires a non-empty session key"
      ++ report (is_some session.thread_id) "session.thread_id" "incompatible"
          "persistent mode uses a key, not an explicit thread_id"
  | SessionMode.thread ↦
      report (is_missing session.thread_id) "session.thread_id" "required"
        "thread mode requires a non-empty thread_id"
      ++ report (is_some session.key) "session.key" "incompatible"
          "thread mode cannot include a persistent key"
]

abbrev pub bad_timeout : RequestLimits → Option ℕ → Bool
bad_timeout limits none = false
bad_timeout limits (some ms) = ms == 0 || ltb limits.max_timeout_ms ms
