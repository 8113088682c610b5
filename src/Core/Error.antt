-- ===== src/Core/Error.antt =====
-- crates/core/src/error.rs. A `String` argument of the source is a text; a JSON value is what the
-- modelled code attaches as a detail.
use imagegen_bridge.Prelude.{
  ℕ, String, Bool, false, ◌≡◌, refl, ◌&&◌, ◌||◌, not, Option, none, some, List, [], ◌∷◌, ◌++◌,
  text_eq, insert, if◌then◌else◌, ◌⊎◌, inl, inr,
}

pub data ErrorCode : Type 0 where
  invalid_request unsupported_capability configuration authentication permission_denied : ErrorCode
  safety_rejected rate_limited overloaded timeout cancelled upstream protocol input : ErrorCode
  artifact session idempotency_conflict internal : ErrorCode

-- `ProviderAttempt` of crates/core/src/response.rs, which the runtime attaches to an error.
pub data ProviderAttemptOutcome : Type 0 where
  succeeded failed : ProviderAttemptOutcome

pub record ProviderAttempt : Type 0 where
  pub provider : String
  pub model : Option String
  pub outcome : ProviderAttemptOutcome
  pub error_code : Option ErrorCode
  pub duration_ms : ℕ

-- `ValidationIssue` of crates/core/src/validation.rs, a list of which is attached to an error.
pub record ValidationIssue : Type 0 where
  pub field : String
  pub code : String
  pub message : String

-- The values of `serde_json::Value` that a detail or a normalization record is built from.
pub data Json : Type 0 where
  null : Json
  bool : Bool → Json
  number : ℕ → Json
  text : String → Json
  texts : List String → Json
  attempts : List ProviderAttempt → Json
  issues : List ValidationIssue → Json

pub record BridgeError : Type 0 where
  pub code : ErrorCode
  pub message : String
  pub retryable : Bool
  pub provider : Option String
  pub upstream_request_id : Option String
  pub details : List (String × Json)
  pub suggestions : List String

unfoldable pub default_suggestions : ErrorCode → List String
default_suggestions ErrorCode.invalid_request =
    "Inspect the reported field/details and compare the request with `imagegen-bridge providers capabilities`."
    ∷ []
default_suggestions ErrorCode.unsupported_capability =
    "Run `imagegen-bridge providers capabilities --json` and remove or change unsupported parameters."
    ∷ []
default_suggestions ErrorCode.configuration =
    "Run `imagegen-bridge config check` to list every invalid field and its source."
    ∷ "Run `imagegen-bridge doctor` after correcting the configuration." ∷ []
default_suggestions ErrorCode.authentication =
    "Run `imagegen-bridge auth-doctor` and refresh the provider login if it is expired or missing."
    ∷ []
default_suggestions ErrorCode.permission_denied =
    "Verify the bridge bearer scope and the provider account entitlement for this operation." ∷ []
default_suggestions ErrorCode.safety_rejected =
    "Revise the prompt or input images; retrying the unchanged request will not help." ∷ []
default_suggestions ErrorCode.rate_limited =
    "Honor Retry-After when present; if rate limits persist, set an explicit lower provider concurrency instead of `unlimited`/`auto`."
    ∷ []
default_suggestions ErrorCode.overloaded =
    "Inspect `imagegen-bridge diagnostics` for the exhausted gate or open circuit."
    ∷ "For a configured admission gate, increase its capacity or set `max_concurrent = \"unlimited\"`; keep a finite value only when you want backpressure."
    ∷ []
default_suggestions ErrorCode.timeout =
    "Compare provider and queue timing, then increase `runtime.default_timeout_ms` and `runtime.request.max_timeout_ms` if the provider is still making progress."
    ∷ []
default_suggestions ErrorCode.cancelled =
    "Retry only if the caller intentionally cancelled before provider dispatch." ∷ []
default_suggestions ErrorCode.upstream =
    "Use the request ID with provider/bridge logs, honor `retryable`, and run `imagegen-bridge doctor` if failures persist."
    ∷ []
default_suggestions ErrorCode.protocol =
    "Run `imagegen-bridge update check`; if already current, capture the request ID and provider diagnostics for a compatibility report."
    ∷ []
default_suggestions ErrorCode.input =
    "Verify that every input is readable, within configured byte/pixel limits, and under an allowed local or remote source."
    ∷ []
default_suggestions ErrorCode.artifact =
    "Check artifact-root permissions, free space, and configured image/response size ceilings." ∷ []
default_suggestions ErrorCode.session =
    "List existing sessions or retry with an isolated session when conversational continuity is not required."
    ∷ []
default_suggestions ErrorCode.idempotency_conflict =
    "Reuse an idempotency key only with the identical request, or generate a new key." ∷ []
default_suggestions ErrorCode.internal =
    "Run `imagegen-bridge doctor` and `imagegen-bridge update check`, then correlate the failure with its request ID."
    ∷ []

-- BridgeError::new
unfoldable pub bridge_error : ErrorCode → String → BridgeError
bridge_error code message = record {
  code = code;
  message = message;
  retryable = false;
  provider = none;
  upstream_request_id = none;
  details = [];
  suggestions = default_suggestions code;
}

-- BridgeError::retryable
unfoldable pub with_retryable : Bool → BridgeError → BridgeError
with_retryable value e = record e { retryable = value }

unfoldable pub with_provider : String → BridgeError → BridgeError
with_provider provider e = record e { provider = some provider }

unfoldable pub with_detail : String → Json → BridgeError → BridgeError
with_detail key value e = record e { details = insert key value e.details }

-- BridgeError::safety_rejected
unfoldable pub safety_rejection : String → BridgeError
unfolding bridge_error with_detail
safety_rejection message = with_detail "safety_controls_relaxed" (Json.bool false) (
    with_detail "retry_same_request" (Json.bool false) (
      with_detail "recovery" (Json.text "revise_prompt_or_inputs") (
        with_detail "safety_category" (Json.text "content_policy")
          (bridge_error ErrorCode.safety_rejected message))))

contains : List String → String → Bool
contains [] s = false
contains (t ∷ ts) s = text_eq t s || contains ts s

unfoldable pub with_suggestion : String → BridgeError → BridgeError
unfolding contains
with_suggestion suggestion e =
    if not (text_eq suggestion "") && not (contains e.suggestions suggestion)
    then record e { suggestions = e.suggestions ++ suggestion ∷ [] }
    else e

-- Result<T, BridgeError>
pub data Result {ℓ} (T : Type ℓ) : Type ℓ where
  err : BridgeError → Result T
  ok : T → Result T

-- `?`
infixl 5 ◌>>=◌
abbrev pub ◌>>=◌ {ℓ κ} : {T : Type ℓ} {U : Type κ} → Result T → (T → Result U) → Result U
err x >>= next = err x
ok t >>= next = next t

-- Inversion of a `?` that did not return early.
pub >>=-eq-ok {ℓ κ} :
    {T : Type ℓ} {U : Type κ} (m : Result T) (next : T → Result U) {u : U}
    → (m >>= next) ≡ ok u
    → (t : T) × (m ≡ ok t) × (next t ≡ ok u)
>>=-eq-ok (err x) next h = cc
>>=-eq-ok (ok t) next h = (t, refl, h)

pub Result-cases {ℓ} :
    {T : Type ℓ} (r : Result T) → ((t : T) × (r ≡ ok t)) ⊎ ((x : BridgeError) × (r ≡ err x))
Result-cases (err x) = inr (x, refl)
Result-cases (ok t) = inl (t, refl)

-- `?` on a result with no value.
infixl 5 ◌>>◌
abbrev pub ◌>>◌ {ℓ} : {U : Type ℓ} → Result (Unit {0}) → Result U → Result U
check >> rest = check >>= λ _. rest
