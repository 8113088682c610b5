-- ===== src/Core/Validation/Sorted.antt =====
-- The list that validation_issues of crates/core/src/validation.rs returns: every issue of the rules, in
-- the order of field and code.
use mathlib.Core.List.{Perm, perm_append_singleton}
use mathlib.Core.List.Perm
use imagegen_bridge.Prelude.{
  ℕ, ◌≤◌, ◌<◌, ◌≡◌, ◌⊎◌, refl, sym, inl, inr, subst, arith, Bool-cases, String, Bool, true, false,
  ◌&&◌, ◌||◌, List, [], ◌∷◌, ◌++◌, length, take, ltb, ltb→lt, text_eq, text_eq_iff,
}
use imagegen_bridge.Core.Error.{ValidationIssue}
use imagegen_bridge.Core.Request.{ImageRequest}
use imagegen_bridge.Core.Validation.Rules.{RequestLimits}
use imagegen_bridge.Core.Validation.Report.{
  text_less, issue_less, insert_issue, sort_issues, bounded_issues, reported_issues,
  validation_issues,
}

insert_issue-Perm :
    (x : ValidationIssue) (xs : List ValidationIssue) → Perm (insert_issue x xs) (x ∷ xs)
unfolding insert_issue
insert_issue-Perm x [] = Perm.refl (x ∷ [])
insert_issue-Perm x (y ∷ ys) = elim (Bool-cases (issue_less y x)) [
  | inl later ↦
      rw (later, insert_issue)
        (Perm.trans (Perm.cons y (insert_issue-Perm x ys)) (Perm.swap x y ys))
  | inr first ↦ rw (first, insert_issue) (Perm.refl (x ∷ y ∷ ys))
]

sort_issues-Perm : (xs : List ValidationIssue) → Perm (sort_issues xs) xs
unfolding sort_issues
sort_issues-Perm [] = Perm.refl []
sort_issues-Perm (x ∷ xs) =
    Perm.trans (insert_issue-Perm x (sort_issues xs)) (Perm.cons x (sort_issues-Perm xs))

text_less-irreflexive : (s : String) → text_less s s ≡ false
unfolding text_less
text_less-irreflexive String.[] = refl
text_less-irreflexive (String.◌∷◌ c s) = ground (arith, text_less-irreflexive s)

text_less-asymmetric : (s t : String) → text_less s t ≡ true → text_less t s ≡ false
unfolding text_less
text_less-asymmetric String.[] String.[] h = refl
text_less-asymmetric String.[] (String.◌∷◌ d t) h = refl
text_less-asymmetric (String.◌∷◌ c s) String.[] h = ground (arith, h)
text_less-asymmetric (String.◌∷◌ c s) (String.◌∷◌ d t) h =
    ground (arith, h, text_less-asymmetric s t)

text_eq-flip : (s t : String) → text_eq s t ≡ false → text_eq t s ≡ false
text_eq-flip s t h = elim (Bool-cases (text_eq t s)) [
  | inr differ ↦ differ
  | inl same ↦
      let e : text_eq s t ≡ true = (text_eq_iff s t).1 (sym ((text_eq_iff t s).0 same)) in
      ground (arith, h, e)
]

-- Before, by field and then by code.
abbrev before : String → String → String → String → Bool
before f g c d = text_less f g || (text_eq f g && text_less c d)

one_field-asymmetric : (f c d : String) → before f f c d ≡ true → before f f d c ≡ false
one_field-asymmetric f c d h =
    let equal : text_eq f f ≡ true = (text_eq_iff f f).1 refl in
    let less : text_less c d ≡ true = ground (arith, h, text_less-irreflexive f) in
    ground (arith, text_less-irreflexive f, text_less-asymmetric c d less)

before-asymmetric : (f g c d : String) → before f g c d ≡ true → before g f d c ≡ false
before-asymmetric f g c d h = elim (Bool-cases (text_eq f g)) [
  | inl same ↦
      subst (λ x. before f x c d ≡ true → before x f d c ≡ false) ((text_eq_iff f g).0 same)
        (one_field-asymmetric f c d) h
  | inr differ ↦
      let less : text_less f g ≡ true = ground (arith, h, differ) in
      ground (arith, text_eq-flip f g differ, text_less-asymmetric f g less)
]

issue_less-asymmetric : (a b : ValidationIssue) → issue_less a b ≡ true → issue_less b a ≡ false
issue_less-asymmetric a b h = before-asymmetric a.field b.field a.code b.code h

-- No issue is less than the one before it.
abbrev pub InOrder : List ValidationIssue → Type 0
InOrder [] = Unit
InOrder (x ∷ []) = Unit
InOrder (x ∷ y ∷ rest) = (issue_less y x ≡ false) × InOrder (y ∷ rest)

insert_issue-later :
    (y x : ValidationIssue) (ys : List ValidationIssue)
    → issue_less y x ≡ true
    → InOrder (y ∷ ys)
    → InOrder (insert_issue x ys)
    → InOrder (y ∷ insert_issue x ys)
unfolding insert_issue
insert_issue-later y x [] h o rest = (issue_less-asymmetric y x h, tt)
insert_issue-later y x (z ∷ zs) h o rest = elim (Bool-cases (issue_less z x)) [
  | inl later ↦ rw (later, insert_issue) (o.0, simp (later, insert_issue) at rest)
  | inr first ↦ rw (first, insert_issue) (issue_less-asymmetric y x h, (first, o.1))
]

insert_issue-InOrder :
    (x : ValidationIssue) (xs : List ValidationIssue) → InOrder xs → InOrder (insert_issue x xs)
unfolding insert_issue
insert_issue-InOrder x [] o = tt
insert_issue-InOrder x (y ∷ ys) o = elim (Bool-cases (issue_less y x)) [
  | inl later ↦
      rw (later, insert_issue)
        (insert_issue-later y x ys later o (insert_issue-InOrder x ys (InOrder-tail y ys o)))
  | inr first ↦ rw (first, insert_issue) (first, o)
]
  where
    InOrder-tail : (y : ValidationIssue) (ys : List ValidationIssue) → InOrder (y ∷ ys) → InOrder ys
    InOrder-tail y [] o = tt
    InOrder-tail y (z ∷ zs) o = o.1

sort_issues-InOrder : (xs : List ValidationIssue) → InOrder (sort_issues xs)
unfolding sort_issues
sort_issues-InOrder [] = tt
sort_issues-InOrder (x ∷ xs) = insert_issue-InOrder x (sort_issues xs) (sort_issues-InOrder xs)

-- The issue that stands for those that were left out.
abbrev pub omitted : ValidationIssue
omitted = record {
  field = "$";
  code = "too_many_issues";
  message = "additional validation issues were omitted";
}

at_most : (n : ℕ) → ltb 63 n ≡ false → n ≤ 63
at_most n few = ground (arith, few)

bounded_issues-few :
    (xs : List ValidationIssue) → ltb 63 (length xs) ≡ false → bounded_issues xs ≡ xs
unfolding bounded_issues
bounded_issues-few xs few = rw (few, bounded_issues) refl

bounded_issues-many :
    (xs : List ValidationIssue)
    → ltb 63 (length xs) ≡ true
    → bounded_issues xs ≡ take 63 xs ++ omitted ∷ []
unfolding bounded_issues
bounded_issues-many xs many = rw (many, bounded_issues) refl

-- The report is in the order of field and code. It has every issue that the rules find, as many
-- times as they find it, where these are at most 63; otherwise it has the first 63 of them and an
-- issue that says that others were omitted.
pub validation_issues_complete :
    (r : ImageRequest) (limits : RequestLimits)
    → let found = reported_issues r limits in
      InOrder (validation_issues r limits)
      × (((length found ≤ 63) × Perm (validation_issues r limits) found)
          ⊎ ((63 < length found) × Perm (validation_issues r limits) (omitted ∷ take 63 found)))
unfolding validation_issues
validation_issues_complete r limits =
    let found = reported_issues r limits in
    let sorted = sort_issues-Perm (bounded_issues found) in
    (
      sort_issues-InOrder (bounded_issues found),
      elim (Bool-cases (ltb 63 (length found))) [
        | inr few ↦ inl (
          at_most (length found) few,
          subst (Perm (sort_issues (bounded_issues found))) (bounded_issues-few found few) sorted,
        )
        | inl many ↦ inr (
          ltb→lt 63 (length found) many,
          Perm.trans
              (subst (Perm (sort_issues (bounded_issues found))) (bounded_issues-many found many)
                sorted)
              (perm_append_singleton omitted (take 63 found)),
        )
      ],
    )
