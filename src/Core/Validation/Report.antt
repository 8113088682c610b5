-- ===== src/Core/Validation/Report.antt =====
-- validation_issues and validate_request of crates/core/src/validation.rs: the bounded, sorted list of
-- the issues of every rule, and the error that carries it.
use Prim.Native.Char.{code}
use imagegen_bridge.Prelude.{
  ℕ, ◌-◌, String, Bool, true, false, ◌&&◌, ◌||◌, not, List, [], ◌∷◌, ◌++◌, length, take, ltb, ◌==◌,
  if◌then◌else◌, text_eq,
}
use imagegen_bridge.Core.Error.{
  ValidationIssue, ErrorCode, Json, bridge_error, with_detail, Result, ok, err,
}
use imagegen_bridge.Core.Request.{ImageRequest}
use imagegen_bridge.Core.Validation.Rules.{
  RequestLimits, report, prompt_issues, negative_prompt_issues, parameter_issues, identifier_issues,
  routing_issues, session_issues, bad_timeout,
}
use imagegen_bridge.Core.Validation.Outputs.{transparency_issues, delivery_issues, metadata_issues}
use imagegen_bridge.Core.Validation.Inputs.{operation_issues}

-- Every call of the closure `issue`, in order.
unfoldable pub reported_issues : ImageRequest → RequestLimits → List ValidationIssue
unfolding prompt_issues negative_prompt_issues parameter_issues identifier_issues routing_issues
    session_issues transparency_issues delivery_issues metadata_issues operation_issues
reported_issues r limits =
    report (not (text_eq r.version "1")) "version" "unsupported_version"
      "only contract version 1 is supported"
    ++ prompt_issues limits r.prompt
    ++ negative_prompt_issues limits r.policies.negative_prompt r.negative_prompt
    ++ parameter_issues limits r.parameters
    ++ routing_issues limits r
    ++ transparency_issues r.output.transparency
    ++ session_issues r.session
    ++ identifier_issues limits "session.key" r.session.key
    ++ identifier_issues limits "session.thread_id" r.session.thread_id
    ++ report (bad_timeout limits r.timeout_ms) "timeout_ms" "out_of_range"
        "timeout is outside the configured range"
    ++ delivery_issues r
    ++ metadata_issues r
    ++ operation_issues limits r

-- str::cmp, on the codes, whose order is that of the bytes.
unfoldable pub text_less : String → String → Bool
text_less text String.[] = false
text_less String.[] (String.◌∷◌ d t) = true
text_less (String.◌∷◌ c s) (String.◌∷◌ d t) =
    ltb (code c) (code d) || (code c == code d && text_less s t)

abbrev pub issue_less : ValidationIssue → ValidationIssue → Bool
issue_less a b = text_less a.field b.field || (text_eq a.field b.field && text_less a.code b.code)

-- The issue stands before the first that is not less than it.
unfoldable pub insert_issue : ValidationIssue → List ValidationIssue → List ValidationIssue
unfolding text_less
insert_issue x [] = x ∷ []
insert_issue x (y ∷ ys) =
    let rest = insert_issue x ys in if issue_less y x then y ∷ rest else x ∷ y ∷ ys

-- slice::sort_by
unfoldable pub sort_issues : List ValidationIssue → List ValidationIssue
unfolding insert_issue
sort_issues [] = []
sort_issues (x ∷ xs) = insert_issue x (sort_issues xs)

abbrev pub max_validation_issues : ℕ
max_validation_issues = 64

-- The closure keeps one place for the note that issues were omitted.
unfoldable pub bounded_issues : List ValidationIssue → List ValidationIssue
bounded_issues issues =
    if ltb (max_validation_issues - 1) (length issues)
    then take (max_validation_issues - 1) issues
      ++ report true "$" "too_many_issues" "additional validation issues were omitted"
    else issues

unfoldable pub validation_issues : ImageRequest → RequestLimits → List ValidationIssue
unfolding reported_issues sort_issues bounded_issues
validation_issues r limits = sort_issues (bounded_issues (reported_issues r limits))

unfoldable pub issues_error : List ValidationIssue → Result (Unit {0})
unfolding bridge_error with_detail
issues_error [] = ok tt
issues_error (issue ∷ more) = err (
    with_detail "issues" (Json.issues (issue ∷ more))
      (bridge_error ErrorCode.invalid_request "request validation failed"))

unfoldable pub validate_request : ImageRequest → RequestLimits → Result (Unit {0})
unfolding validation_issues issues_error
validate_request r limits = issues_error (validation_issues r limits)
