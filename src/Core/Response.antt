-- ===== src/Core/Response.antt =====
-- crates/core/src/response.rs: what a provider returns, and the progress that it reports.
use imagegen_bridge.Prelude.{ℕ, String, Bool, Option, none, List, []}
use imagegen_bridge.Core.Error.{Json, BridgeError, ProviderAttempt}
use imagegen_bridge.Core.Parameters.{OutputFormat}
use imagegen_bridge.Core.Request.{GenerationParameters}

pub record Normalization : Type 0 where
  pub field : String
  pub requested : Option Json
  pub effective : Option Json
  pub reason : String

pub data ImagePayload : Type 0 where
  b64_json url : String → ImagePayload
  artifact : String → Option String → ImagePayload
  metadata : ImagePayload

pub record GeneratedImage : Type 0 where
  pub index : ℕ
  pub payload : ImagePayload
  pub format : OutputFormat
  pub width : ℕ
  pub height : ℕ
  pub bytes : ℕ
  pub sha256 : String
  pub generation_ms : Option ℕ
  pub metadata_name : Option String

pub record ImageFailure : Type 0 where
  pub index : ℕ
  pub error : BridgeError
  pub generation_ms : ℕ

pub record Usage : Type 0 where
  pub input_tokens : Option ℕ
  pub output_tokens : Option ℕ
  pub total_tokens : Option ℕ
  pub provider : List (String × ℕ)

-- Usage::default
abbrev pub default_usage : Usage
default_usage = record {
  input_tokens = none;
  output_tokens = none;
  total_tokens = none;
  provider = [];
}

pub record SessionMetadata : Type 0 where
  pub key : Option String
  pub thread_id : Option String
  pub reused : Bool

pub record Timings : Type 0 where
  pub queue_ms : ℕ
  pub input_ms : ℕ
  pub provider_ms : ℕ
  pub artifact_ms : ℕ
  pub total_ms : ℕ

-- The field `data` is `images`.
pub record ImageResponse : Type 0 where
  pub id : String
  pub created : ℕ
  pub provider : String
  pub model : String
  pub requested : GenerationParameters
  pub effective : GenerationParameters
  pub normalizations : List Normalization
  pub attempts : List ProviderAttempt
  pub images : List GeneratedImage
  pub failures : List ImageFailure
  pub revised_prompt : Option String
  pub usage : Option Usage
  pub session : Option SessionMetadata
  pub timings : Timings
  pub warnings : List String

pub data ProviderEvent : Type 0 where
  started : ProviderEvent
  progress : String → ProviderEvent
  partial_image : ℕ → ℕ → String → ProviderEvent
  completed : ImageResponse → ProviderEvent
