-- ===== src/Core/Request.antt =====
-- crates/core/src/request.rs: the normalized image request.
use imagegen_bridge.Prelude.{
  ℕ, String, Bool, true, false, ◌&&◌, ◌||◌, text_eq, option_text_eq, Option, none, List, [], ◌∷◌,
}
use imagegen_bridge.Core.Parameters.{
  Quality, OutputFormat, Background, TransparencyMode, FallbackPolicy, BatchExecution, Moderation,
  MultiImageFailurePolicy, InputFidelity, ImageAction, ResponseFormat, ArtifactCollisionPolicy,
  ArtifactMetadataPolicy, CompatibilityMode, NegativePromptMode, RevisedPromptPolicy, SessionMode,
  Resolution, ImageSize, AspectRatio, default_size,
}

pub data ImageSource : Type 0 where
  file url data_url base64 : String → ImageSource

pub record ImageInput : Type 0 where
  pub source : ImageSource
  pub media_type : Option String
  pub filename : Option String

pub data ImageOperation : Type 0 where
  generate : List ImageInput → ImageOperation
  edit : List ImageInput → Option ImageInput → List ImageInput → ImageOperation

unfoldable pub reference_images : ImageOperation → List ImageInput
reference_images (ImageOperation.generate references) = references
reference_images (ImageOperation.edit images mask references) = references

pub record GenerationParameters : Type 0 where
  pub n : ℕ
  pub size : ImageSize
  pub aspect_ratio : Option AspectRatio
  pub resolution : Option Resolution
  pub quality : Quality
  pub output_format : OutputFormat
  pub output_compression : Option ℕ
  pub background : Background
  pub moderation : Moderation
  pub partial_images : ℕ
  pub failure_policy : MultiImageFailurePolicy
  pub input_fidelity : Option InputFidelity
  pub action : ImageAction

pub record ProviderRoute : Type 0 where
  pub provider : String
  pub model : Option String

-- Routes as members of a set.
unfoldable pub route_eq : ProviderRoute → ProviderRoute → Bool
route_eq a b = text_eq a.provider b.provider && option_text_eq a.model b.model

unfoldable pub contains_route : List ProviderRoute → ProviderRoute → Bool
unfolding route_eq
contains_route [] route = false
contains_route (r ∷ rs) route = route_eq r route || contains_route rs route

pub record RoutingOptions : Type 0 where
  pub provider : Option String
  pub model : Option String
  pub fallbacks : List ProviderRoute
  pub fallback_policy : FallbackPolicy

pub record SessionOptions : Type 0 where
  pub mode : SessionMode
  pub key : Option String
  pub thread_id : Option String

pub record TransparencyOptions : Type 0 where
  pub mode : TransparencyMode
  pub key_color : Option String
  pub transparent_threshold : ℕ
  pub opaque_threshold : ℕ
  pub despill : Bool

pub record OutputOptions : Type 0 where
  pub response_format : ResponseFormat
  pub filename_prefix : Option String
  pub directory : Option String
  pub filename : Option String
  pub collision : ArtifactCollisionPolicy
  pub metadata : ArtifactMetadataPolicy
  pub transparency : TransparencyOptions

pub record RequestPolicies : Type 0 where
  pub compatibility : CompatibilityMode
  pub negative_prompt : NegativePromptMode
  pub revised_prompt : RevisedPromptPolicy
  pub batch_execution : BatchExecution

pub record ImageRequest : Type 0 where
  pub version : String
  pub prompt : String
  pub negative_prompt : Option String
  pub operation : ImageOperation
  pub parameters : GenerationParameters
  pub routing : RoutingOptions
  pub session : SessionOptions
  pub output : OutputOptions
  pub policies : RequestPolicies
  pub idempotency_key : Option String
  pub timeout_ms : Option ℕ
  pub user : Option String

-- The `Default` implementations.
abbrev pub default_parameters : GenerationParameters
default_parameters = record {
  n = 1;
  size = default_size;
  aspect_ratio = none;
  resolution = none;
  quality = Quality.auto;
  output_format = OutputFormat.png;
  output_compression = none;
  background = Background.auto;
  moderation = Moderation.auto;
  partial_images = 0;
  failure_policy = MultiImageFailurePolicy.fail_fast;
  input_fidelity = none;
  action = ImageAction.auto;
}

abbrev pub default_routing : RoutingOptions
default_routing = record {
  provider = none;
  model = none;
  fallbacks = [];
  fallback_policy = FallbackPolicy.on_unavailable;
}

abbrev pub default_session : SessionOptions
default_session = record { mode = SessionMode.isolated; key = none; thread_id = none }

abbrev pub default_transparency : TransparencyOptions
default_transparency = record {
  mode = TransparencyMode.auto;
  key_color = none;
  transparent_threshold = 12;
  opaque_threshold = 96;
  despill = true;
}

abbrev pub default_output : OutputOptions
default_output = record {
  response_format = ResponseFormat.b64_json;
  filename_prefix = none;
  directory = none;
  filename = none;
  collision = ArtifactCollisionPolicy.error;
  metadata = ArtifactMetadataPolicy.none;
  transparency = default_transparency;
}

abbrev pub default_policies : RequestPolicies
default_policies = record {
  compatibility = CompatibilityMode.strict;
  negative_prompt = NegativePromptMode.auto;
  revised_prompt = RevisedPromptPolicy.include;
  batch_execution = BatchExecution.auto;
}

-- ImageRequest::generate
abbrev pub generate_request : String → ImageRequest
generate_request prompt = record {
  version = "1";
  prompt = prompt;
  negative_prompt = none;
  operation = ImageOperation.generate [];
  parameters = default_parameters;
  routing = default_routing;
  session = default_session;
  output = default_output;
  policies = default_policies;
  idempotency_key = none;
  timeout_ms = none;
  user = none;
}
