-- ===== src/Tests/Validation.antt =====
-- Examples for crates/core/src/validation.rs.
use imagegen_bridge.Prelude.{
  ◌≤◌, ◌<◌, ◌⊎◌, take, ◌≡◌, refl, true, false, [], ◌∷◌, length, map, all_chars, any_char, is_blank,
  text_eq, text_len,
}
use imagegen_bridge.Core.Error.{ok}
use imagegen_bridge.Core.Request.{ImageRequest, generate_request}
use imagegen_bridge.Core.Validation.Rules.{default_request_limits}
use imagegen_bridge.Core.Validation.Names.{
  valid_hex_color, valid_portable_directory, valid_output_filename,
}
use imagegen_bridge.Core.Validation.Inputs.{input_count}
use imagegen_bridge.Core.Validation.Report.{reported_issues, validation_issues, validate_request}
use imagegen_bridge.Core.Parameters.{OutputFormat, writes_sidecar, embeds}
use imagegen_bridge.Core.Parameters.Sizes.{dimensions}
use imagegen_bridge.Core.Parameters.Decimal.{split_once}
use imagegen_bridge.Core.Validation.Sorted.{InOrder, omitted, validation_issues_complete}
use mathlib.Core.List.{Perm}
use imagegen_bridge.Core.Validation.Accepted.{validate_request-accepted}

abbrev lighthouse : ImageRequest
lighthouse = generate_request "a lighthouse"

-- The default request is valid.
default_is_valid : validate_request lighthouse default_request_limits ≡ ok tt
unfolding validate_request is_blank text_len dimensions writes_sidecar embeds
default_is_valid = refl

validate_request-accepted_example :
    (text_eq "1" "1" ≡ true)
    × ((is_blank "a lighthouse" ≡ false) × (text_len "a lighthouse" ≤ 131_072))
    × ((1 ≤ 1) × (1 ≤ 16))
    × (12 < 96)
    × (input_count lighthouse.operation ≤ 16)
validate_request-accepted_example =
    validate_request-accepted lighthouse default_request_limits default_is_valid

-- No output, no prompt, and a threshold that is too large.
abbrev wrong : ImageRequest
wrong = record lighthouse {
  prompt = " ";
  parameters = record lighthouse.parameters { n = 0 };
  output = record lighthouse.output {
    transparency = record lighthouse.output.transparency { transparent_threshold = 96 };
  };
}

-- In the order of the fields, not of the rules.
sorted_fields :
    map (λ issue. issue.field) (validation_issues wrong default_request_limits)
    ≡ "output.transparency.transparent_threshold" ∷ "parameters.n" ∷ "prompt" ∷ []
unfolding validation_issues is_blank dimensions writes_sidecar embeds
sorted_fields = refl

validation_issues_complete_example :
    let found = reported_issues wrong default_request_limits in
    InOrder (validation_issues wrong default_request_limits)
    × (((length found ≤ 63) × Perm (validation_issues wrong default_request_limits) found)
        ⊎ ((63 < length found)
            × Perm (validation_issues wrong default_request_limits) (omitted ∷ take 63 found)))
validation_issues_complete_example = validation_issues_complete wrong default_request_limits

directory_is_valid : valid_portable_directory "campaigns/summer" ≡ true
unfolding valid_portable_directory text_len all_chars
directory_is_valid = refl

parent_is_invalid : valid_portable_directory "campaigns/../summer" ≡ false
unfolding valid_portable_directory text_len all_chars
parent_is_invalid = refl

filename_is_valid : valid_output_filename "hero.PNG" OutputFormat.png ≡ true
unfolding valid_output_filename text_len all_chars any_char split_once
filename_is_valid = refl

extension_is_invalid : valid_output_filename "hero.png" OutputFormat.webp ≡ false
unfolding valid_output_filename text_len all_chars any_char split_once
extension_is_invalid = refl

color_is_valid : valid_hex_color "#00ff00" ≡ true
unfolding valid_hex_color text_len all_chars
color_is_valid = refl
