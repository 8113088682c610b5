-- ===== src/Core/Validation/Accepted.antt =====
-- What holds of a request that validate_request of crates/core/src/validation.rs accepts.
use imagegen_bridge.Prelude.{
  ℕ, ◌≤◌, ◌<◌, ◌≡◌, refl, arith, String, Bool, true, false, ◌||◌, not, List, [], ◌∷◌, ◌++◌, leb,
  ltb, ◌==◌, if◌then◌else◌, text_len, text_eq, is_blank,
}
use imagegen_bridge.Core.Error.{ValidationIssue, ok}
use imagegen_bridge.Core.Request.{ImageRequest, GenerationParameters, TransparencyOptions}
use imagegen_bridge.Core.Validation.Rules.{RequestLimits, prompt_issues, parameter_issues}
use imagegen_bridge.Core.Validation.Outputs.{transparency_issues}
use imagegen_bridge.Core.Validation.Inputs.{operation_issues, input_count}
use imagegen_bridge.Core.Validation.Report.{reported_issues, validate_request}
use imagegen_bridge.Core.Validation.Bounds.{append-empty, report-empty, validate_request-ok}

before : (xs ys zs : List ValidationIssue) → (xs ++ ys) ++ zs ≡ [] → xs ≡ []
before xs ys zs h = (append-empty xs ys (append-empty (xs ++ ys) zs h).0).0

if-empty :
    (b : Bool) (x : ValidationIssue) (xs ys : List ValidationIssue)
    → (if b then x ∷ xs else ys) ≡ []
    → (b ≡ false) × (ys ≡ [])
if-empty false x xs ys h = (refl, h)
if-empty true x xs ys h = ground (arith, h)

or-false : (a b : Bool) → (a || b) ≡ false → (a ≡ false) × (b ≡ false)
or-false false b h = (refl, h)
or-false true b h = ground (arith, h)

in_range : (n m : ℕ) → (n == 0 || ltb m n) ≡ false → (1 ≤ n) × (n ≤ m)
in_range n m h =
    let both = or-false (n == 0) (ltb m n) h in (ground (arith, both.0), ground (arith, both.1))

prompt_issues-empty :
    (limits : RequestLimits) (prompt : String)
    → prompt_issues limits prompt ≡ []
    → (is_blank prompt ≡ false) × (text_len prompt ≤ limits.max_prompt_bytes)
unfolding prompt_issues
prompt_issues-empty limits prompt h =
    let both = if-empty (is_blank prompt) _ _ _ h in
    let small = report-empty (ltb limits.max_prompt_bytes (text_len prompt)) _ _ _ both.1 in
    (both.0, ground (arith, small))

parameter_issues-empty :
    (limits : RequestLimits) (p : GenerationParameters)
    → parameter_issues limits p ≡ []
    → (1 ≤ p.n) × (p.n ≤ limits.max_outputs)
unfolding parameter_issues
parameter_issues-empty limits p h =
    let two = before _ _ _ (before _ _ _ h) in
    in_range p.n limits.max_outputs
      (report-empty (p.n == 0 || ltb limits.max_outputs p.n) _ _ _ (append-empty _ _ two).0)

transparency_issues-empty :
    (t : TransparencyOptions)
    → transparency_issues t ≡ []
    → t.transparent_threshold < t.opaque_threshold
unfolding transparency_issues
transparency_issues-empty t h =
    let lower =
      report-empty (leb t.opaque_threshold t.transparent_threshold) _ _ _ (append-empty _ _ h).0 in
    ground (arith, lower)

operation_issues-empty :
    (limits : RequestLimits) (r : ImageRequest)
    → operation_issues limits r ≡ []
    → input_count r.operation ≤ limits.max_inputs
unfolding operation_issues
operation_issues-empty limits r h =
    let two = (append-empty _ _ (before _ _ _ (before _ _ _ h))).0 in
    let count =
      report-empty (ltb limits.max_inputs (input_count r.operation)) _ _ _
        (append-empty _ _ two).1 in
    within limits.max_inputs (input_count r.operation) count
  where
    within : (m n : ℕ) → ltb m n ≡ false → n ≤ m
    within m n h = ground (arith, h)

-- A request that is accepted has version 1, a prompt that is not blank and within the limit, an
-- output count from 1 to the limit, a transparent threshold below the opaque one, and as many input
-- images as the limit allows at most.
pub validate_request-accepted :
    (r : ImageRequest) (limits : RequestLimits)
    → validate_request r limits ≡ ok tt
    → (text_eq r.version "1" ≡ true)
      × ((is_blank r.prompt ≡ false) × (text_len r.prompt ≤ limits.max_prompt_bytes))
      × ((1 ≤ r.parameters.n) × (r.parameters.n ≤ limits.max_outputs))
      × (r.output.transparency.transparent_threshold < r.output.transparency.opaque_threshold)
      × (input_count r.operation ≤ limits.max_inputs)
unfolding reported_issues
validate_request-accepted r limits accepted =
    let all = validate_request-ok r limits accepted in
    let six = (append-empty _ _ (before _ _ _ (before _ _ _ (before _ _ _ all)))).0 in
    let four = before _ _ _ six in
    let two = before _ _ _ four in
    (
      true_of (text_eq r.version "1")
          (report-empty (not (text_eq r.version "1")) _ _ _ (append-empty _ _ two).0),
      prompt_issues-empty limits r.prompt (append-empty _ _ two).1,
      parameter_issues-empty limits r.parameters (append-empty _ _ four).1,
      transparency_issues-empty r.output.transparency (append-empty _ _ six).1,
      operation_issues-empty limits r (append-empty _ _ all).1,
    )
  where
    true_of : (b : Bool) → not b ≡ false → b ≡ true
    true_of true h = refl
    true_of false h = ground (arith, h)
