-- ===== src/Tests/Providers.antt =====
-- A provider for the tests. The floating-point numbers of its bound on the aspect ratio are taken in
-- thousandths.
use imagegen_bridge.Prelude.{ℕ, ◌*◌, ◌/◌, true, false, none, some, [], ◌∷◌, leb}
use imagegen_bridge.Core.Parameters.{Quality, OutputFormat, Background, Moderation, ImageAction}
use imagegen_bridge.Core.Capabilities.{
  Floats, ProviderCapabilities, SupportLevel, BatchMode, InputCapabilities,
}

instance pub thousandths : Floats ℕ
thousandths = record { of_u32 = λ n. n * 1000; div = λ a b. a * 1000 / b; le = leb }

abbrev no_inputs : InputCapabilities
no_inputs = record {
  support = SupportLevel.unsupported;
  max_count = 0;
  max_bytes_each = 0;
  max_bytes_total = 0;
}

abbrev pub capabilities : ProviderCapabilities ℕ
capabilities = record {
  provider = "test";
  implementation_version = "1";
  model = some "test-image";
  experimental = false;
  generation = true;
  edits = false;
  count = record { min = 1; max = 2 };
  batching = record {
    mode = BatchMode.native;
    native_count = record { min = 1; max = 2 };
    max_parallel_outputs = 1;
  };
  sizes = record {
    auto = true;
    allowed = [];
    arbitrary = false;
    min_edge = none;
    max_edge = none;
    edge_multiple = none;
    min_pixels = none;
    max_pixels = none;
    max_aspect_ratio = none;
  };
  aspect_ratio = SupportLevel.unsupported;
  resolution = SupportLevel.unsupported;
  qualities = Quality.auto ∷ [];
  output_formats = OutputFormat.png ∷ [];
  backgrounds = Background.auto ∷ [];
  transparent_background = SupportLevel.unsupported;
  moderation = Moderation.auto ∷ [];
  negative_prompt = SupportLevel.emulated;
  revised_prompt = SupportLevel.unsupported;
  user_attribution = SupportLevel.unsupported;
  input_fidelities = [];
  actions = ImageAction.auto ∷ [];
  reference_images = no_inputs;
  edit_images = no_inputs;
  masks = no_inputs;
  partial_images = record { min = 0; max = 0 };
  persistent_sessions = true;
  explicit_threads = true;
}
