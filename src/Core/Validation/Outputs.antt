-- ===== src/Core/Validation/Outputs.antt =====
-- The rules of crates/core/src/validation.rs on the output: transparency, delivery, names and metadata.
use imagegen_bridge.Prelude.{
  ℕ, ◌+◌, ◌*◌, String, Bool, true, false, ◌&&◌, ◌||◌, not, Option, none, some, List, ◌++◌, leb, ltb,
  ◌==◌, is_some, text_len,
}
use imagegen_bridge.Core.Error.{ValidationIssue}
use imagegen_bridge.Core.Parameters.{
  OutputFormat, ResponseFormat, ArtifactCollisionPolicy, writes_sidecar, embeds,
}
use imagegen_bridge.Core.Request.{ImageRequest, TransparencyOptions}
use imagegen_bridge.Core.Validation.Names.{
  valid_hex_color, valid_portable_directory, valid_output_filename,
}
use imagegen_bridge.Core.Validation.Rules.{report}

abbrev bad_color : Option String → Bool
bad_color none = false
bad_color (some key) = not (valid_hex_color key)

unfoldable pub transparency_issues : TransparencyOptions → List ValidationIssue
transparency_issues t =
    report (leb t.opaque_threshold t.transparent_threshold)
      "output.transparency.transparent_threshold" "out_of_range"
      "transparent threshold must be lower than opaque threshold"
    ++ report (bad_color t.key_color) "output.transparency.key_color" "invalid_format"
        "chroma key must be a hex RGB color like #00ff00"

abbrev is_artifact : ResponseFormat → Bool
is_artifact ResponseFormat.artifact = true
is_artifact _ = false

abbrev is_metadata : ResponseFormat → Bool
is_metadata ResponseFormat.metadata = true
is_metadata _ = false

abbrev pub artifact_delivery : ResponseFormat → Bool
artifact_delivery ResponseFormat.artifact = true
artifact_delivery ResponseFormat.url = true
artifact_delivery _ = false

abbrev is_error_policy : ArtifactCollisionPolicy → Bool
is_error_policy ArtifactCollisionPolicy.error = true
is_error_policy _ = false

abbrev max_embedded_request_text_bytes : ℕ
max_embedded_request_text_bytes = 12 * 1024

abbrev optional_len : Option String → ℕ
optional_len none = 0
optional_len (some text) = text_len text

abbrev bad_directory : Option String → Bool
bad_directory none = false
bad_directory (some directory) = not (valid_portable_directory directory)

abbrev bad_filename : OutputFormat → Option String → Bool
bad_filename format none = false
bad_filename format (some filename) = not (valid_output_filename filename format)

-- The rules on delivery, and on a name beside the others.
unfoldable pub delivery_issues : ImageRequest → List ValidationIssue
delivery_issues r =
    report (not (artifact_delivery r.output.response_format) && is_some r.output.filename_prefix)
      "output.filename_prefix" "incompatible" "filename_prefix requires artifact response format"
    ++ report
        (not (artifact_delivery r.output.response_format)
          && (is_some r.output.directory || is_some r.output.filename))
        "output" "incompatible" "artifact path controls require artifact or url response format"
    ++ report (is_some r.output.filename && is_some r.output.filename_prefix) "output.filename"
        "incompatible" "filename cannot be combined with filename_prefix"
    ++ report (is_some r.output.filename && not (r.parameters.n == 1)) "output.filename"
        "incompatible" "an exact filename requires a single output"
    ++ report (not (is_some r.output.filename) && not (is_error_policy r.output.collision))
        "output.collision" "incompatible" "collision policy applies only to an explicit filename"

-- The rules on metadata, and on the texts of the path.
unfoldable pub metadata_issues : ImageRequest → List ValidationIssue
metadata_issues r =
    report (writes_sidecar r.output.metadata && not (is_artifact r.output.response_format))
      "output.metadata" "incompatible" "metadata sidecars require artifact response format"
    ++ report (embeds r.output.metadata && is_metadata r.output.response_format) "output.metadata"
        "incompatible" "embedded metadata requires an image-bearing response format"
    ++ report
        (embeds r.output.metadata
          && ltb max_embedded_request_text_bytes
              (text_len r.prompt + optional_len r.negative_prompt))
        "output.metadata" "too_large"
        "embedded metadata requires combined prompt text no larger than 12 KiB"
    ++ report (bad_directory r.output.directory) "output.directory" "invalid"
        "output directory must be a safe portable relative path"
    ++ report (bad_filename r.parameters.output_format r.output.filename) "output.filename"
        "invalid" "output filename must be a safe component with a matching image extension"
