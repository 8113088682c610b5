-- ===== src/Core/Validation/Inputs.antt =====
-- The rules of crates/core/src/validation.rs on the operation and its input images.
use Prim.Native.Char.{code}
use Prim.Native.String.{◌++◌ as append}
use imagegen_bridge.Prelude.{
  ℕ, suc, ◌+◌, ◌-◌, String, Bool, true, false, ◌&&◌, ◌||◌, not, Option, none, some, List, [], ◌∷◌,
  ◌++◌, length, take, ltb, ◌==◌, if◌then◌else◌, is_some, text_len, is_blank, is_control, any_char,
}
use imagegen_bridge.Core.Error.{ValidationIssue}
use imagegen_bridge.Core.Parameters.{ImageAction}
use imagegen_bridge.Core.Parameters.Decimal.{show_nat}
use imagegen_bridge.Core.Request.{
  ImageRequest, ImageOperation, ImageInput, ImageSource, reference_images,
}
use imagegen_bridge.Core.Validation.Rules.{RequestLimits, report}

-- str::starts_with
unfoldable pub has_prefix : String → String → Bool
has_prefix String.[] text = true
has_prefix (String.◌∷◌ c s) String.[] = false
has_prefix (String.◌∷◌ c s) (String.◌∷◌ d t) = code c == code d && has_prefix s t

unfoldable pub source_issues : RequestLimits → String → ImageSource → List ValidationIssue
unfolding has_prefix
source_issues limits field (ImageSource.file path) =
    report (text_len path == 0) field "empty" "file path must not be empty"
source_issues limits field (ImageSource.url url) =
    report (is_blank url) field "empty" "URL must not be empty"
source_issues limits field (ImageSource.data_url text) =
    if ltb limits.max_inline_encoded_bytes (text_len text)
    then report true field "too_large" "data URL exceeds the encoded byte limit"
    else report (not (has_prefix "data:image/" text)) field "invalid"
        "data URL must contain an image media type"
source_issues limits field (ImageSource.base64 text) =
    if ltb limits.max_inline_encoded_bytes (text_len text)
    then report true field "too_large" "base64 input exceeds the encoded byte limit"
    else report (text_len text == 0) field "empty" "base64 input must not be empty"

abbrev bad_input_name : Option String → Bool
bad_input_name none = false
bad_input_name (some name) =
    text_len name == 0
    || any_char (λ c. code c == 47) name
    || any_char (λ c. code c == 92) name
    || any_char is_control name

-- validate_input
unfoldable pub input_issues : RequestLimits → String → ImageInput → List ValidationIssue
unfolding source_issues
input_issues limits field input =
    source_issues limits field input.source
    ++ report (bad_input_name input.filename) field "invalid_filename"
        "logical filename must be a single safe path component"

-- A loop over inputs, whose fields are named by their index.
unfoldable pub each_input_issues :
    RequestLimits → String → ℕ → List ImageInput → List ValidationIssue
unfolding input_issues
each_input_issues limits name index [] = []
each_input_issues limits name index (input ∷ rest) =
    input_issues limits (append name (append "[" (append (show_nat index) "]"))) input
    ++ each_input_issues limits name (suc index) rest

abbrev pub edit_images : ImageOperation → List ImageInput
edit_images (ImageOperation.generate references) = []
edit_images (ImageOperation.edit images mask references) = images

abbrev pub mask_of : ImageOperation → Option ImageInput
mask_of (ImageOperation.generate references) = none
mask_of (ImageOperation.edit images mask references) = mask

abbrev lacks_images : ImageOperation → Bool
lacks_images (ImageOperation.edit [] mask references) = true
lacks_images _ = false

abbrev max_detailed_input_validations : ℕ
max_detailed_input_validations = 64

abbrev pub input_count : ImageOperation → ℕ
unfolding reference_images
input_count operation =
    length (edit_images operation)
    + (if is_some (mask_of operation) then 1 else 0)
    + length (reference_images operation)

unfoldable pub mask_issues : RequestLimits → ℕ → Option ImageInput → List ValidationIssue
unfolding input_issues
mask_issues limits detailed none = []
mask_issues limits detailed (some mask) =
    if ltb detailed max_detailed_input_validations then input_issues limits "mask" mask else []

-- `detailed_inputs` after the images, and after the mask.
abbrev detailed_images : ImageOperation → ℕ
detailed_images operation = length (take max_detailed_input_validations (edit_images operation))

abbrev detailed_inputs : ImageOperation → ℕ
detailed_inputs operation =
    if is_some (mask_of operation) && ltb (detailed_images operation) max_detailed_input_validations
    then suc (detailed_images operation)
    else detailed_images operation

unfoldable pub action_issues : ImageOperation → ImageAction → List ValidationIssue
action_issues (ImageOperation.generate []) ImageAction.edit =
    report true "parameters.action" "incompatible" "edit action requires an image in context"
action_issues (ImageOperation.edit images mask references) ImageAction.generate =
    report true "parameters.action" "incompatible"
      "generate action conflicts with the edit operation"
action_issues _ _ = []

unfoldable pub operation_issues : RequestLimits → ImageRequest → List ValidationIssue
unfolding each_input_issues mask_issues action_issues reference_images
operation_issues limits r =
    report (lacks_images r.operation) "images" "required"
      "edit operation requires at least one source image"
    ++ report (ltb limits.max_inputs (input_count r.operation)) "operation" "too_many_inputs"
        "total input image count exceeds the configured limit"
    ++ each_input_issues limits "images" 0
        (take max_detailed_input_validations (edit_images r.operation))
    ++ mask_issues limits (detailed_images r.operation) (mask_of r.operation)
    ++ each_input_issues limits "reference_images" 0 (
        take (max_detailed_input_validations - detailed_inputs r.operation)
          (reference_images r.operation))
    ++ report
        (is_some r.parameters.input_fidelity
          && length (edit_images r.operation) + length (reference_images r.operation) == 0)
        "parameters.input_fidelity" "incompatible"
        "input_fidelity requires at least one source or reference image"
    ++ action_issues r.operation r.parameters.action
