-- ===== src/Core/Validation/Bounds.antt =====
-- The length of the list that validation_issues of crates/core/src/validation.rs returns, and that a
-- request without an issue has none by any rule.
use imagegen_bridge.Prelude.{
  ℕ, zero, suc, ◌≤◌, ◌≡◌, refl, inl, inr, ◌∙◌, ap, arith, Bool-cases, String, Bool, true, false,
  List, [], ◌∷◌, ◌++◌, length, length-append, take, ltb, if◌then◌else◌,
}
use imagegen_bridge.Core.Error.{ValidationIssue, ok}
use imagegen_bridge.Core.Request.{ImageRequest}
use imagegen_bridge.Core.Validation.Rules.{RequestLimits, report}
use imagegen_bridge.Core.Validation.Report.{
  issue_less, insert_issue, sort_issues, bounded_issues, reported_issues, validation_issues,
  validate_request, issues_error,
}

length-insert_issue :
    (x : ValidationIssue) (xs : List ValidationIssue) → length (insert_issue x xs) ≡ suc (length xs)
unfolding insert_issue
length-insert_issue x [] = refl
length-insert_issue x (y ∷ ys) = elim (Bool-cases (issue_less y x)) [
  | inl later ↦ rw (later, insert_issue) (ap suc (length-insert_issue x ys))
  | inr first ↦ rw (first, insert_issue) refl
]

length-sort_issues : (xs : List ValidationIssue) → length (sort_issues xs) ≡ length xs
unfolding sort_issues
length-sort_issues [] = refl
length-sort_issues (x ∷ xs) =
    length-insert_issue x (sort_issues xs) ∙ ap suc (length-sort_issues xs)

length-take : (n : ℕ) (xs : List ValidationIssue) → n ≤ length xs → length (take n xs) ≡ n
length-take zero xs h = refl
length-take (suc n) [] h = omega (arith, h)
length-take (suc n) (x ∷ xs) h = ap suc (length-take n xs (omega (arith, h)))

length-bounded_issues :
    (xs : List ValidationIssue)
    → length (bounded_issues xs) ≡ (if ltb 63 (length xs) then 64 else length xs)
unfolding bounded_issues
length-bounded_issues xs = elim (Bool-cases (ltb 63 (length xs))) [
  | inl many ↦
      let enough : 63 ≤ length xs = ground (arith, many) in
      rw many (
        omega (
          arith,
          length-append (take 63 xs)
              (report true "$" "too_many_issues" "additional validation issues were omitted"),
          length-take 63 xs enough,
        ))
  | inr few ↦ rw few refl
]

-- The report has every issue where these are at most 63, and otherwise 64, as it has a note that
-- others were omitted.
pub length-validation_issues :
    (r : ImageRequest) (limits : RequestLimits)
    → length (validation_issues r limits) ≡ (
        if ltb 63 (length (reported_issues r limits))
        then 64
        else length (reported_issues r limits))
unfolding validation_issues
length-validation_issues r limits =
    length-sort_issues (bounded_issues (reported_issues r limits))
    ∙ length-bounded_issues (reported_issues r limits)

is_empty : (xs : List ValidationIssue) → length xs ≡ 0 → xs ≡ []
is_empty [] h = refl
is_empty (x ∷ xs) h = ground (arith, h)

issues_error-ok : (xs : List ValidationIssue) → issues_error xs ≡ ok tt → xs ≡ []
unfolding issues_error
issues_error-ok [] h = refl
issues_error-ok (x ∷ xs) h = ground (arith, h)

none_of : (n m : ℕ) → m ≡ 0 → m ≡ (if ltb 63 n then 64 else n) → n ≡ 0
none_of n m h e = ground (arith, h, e)

-- A request that is accepted has no issue.
pub validate_request-ok :
    (r : ImageRequest) (limits : RequestLimits)
    → validate_request r limits ≡ ok tt
    → reported_issues r limits ≡ []
unfolding validate_request
validate_request-ok r limits accepted = is_empty (reported_issues r limits) (
    none_of (length (reported_issues r limits)) (length (validation_issues r limits))
      (ap length (issues_error-ok (validation_issues r limits) accepted))
      (length-validation_issues r limits))

pub append-empty : (xs ys : List ValidationIssue) → xs ++ ys ≡ [] → (xs ≡ []) × (ys ≡ [])
append-empty [] ys h = (refl, h)
append-empty (x ∷ xs) ys h = ground (arith, h)

pub report-empty : (b : Bool) (f c m : String) → report b f c m ≡ [] → b ≡ false
report-empty false f c m h = refl
report-empty true f c m h = ground (arith, h)
