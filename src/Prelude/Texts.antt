-- ===== src/Prelude/Texts.antt =====
-- Comparison of texts, and a map from texts to values in key order (Rust's `BTreeMap`).
use Prim.Native.Nat.{Ordering}
use Prim.Native.String.{String, compare}
use text.Mathlib.Text.{◌==◌}
use text.Mathlib.TextEquality.{eq_iff}
use text.Mathlib.TextPositions.{eq_refl}
use mathlib.Core.Path.{◌≡◌}
use mathlib.Core.Bool.{Bool, true, false}
use mathlib.Core.Option.{Option, none, some}
use mathlib.Core.List.{List, [], ◌∷◌}
use mathlib.Core.Logic.{◌↔◌}
use native.Mathlib.Omega.{arith}

-- str::eq
abbrev pub text_eq : String → String → Bool
text_eq s t = s == t

pub text_eq_iff : (s t : String) → (text_eq s t ≡ true) ↔ (s ≡ t)
text_eq_iff s t = eq_iff s t

-- Equality of optional texts.
abbrev pub option_text_eq : Option String → Option String → Bool
option_text_eq none none = true
option_text_eq (some s) (some t) = text_eq s t
option_text_eq _ _ = false

-- BTreeSet::insert, on the elements in ascending order.
unfoldable pub set_insert : String → List String → List String
set_insert s [] = s ∷ []
set_insert s (t ∷ ts) =
    let rest = set_insert s ts in
    elim (compare s t) [ Ordering.lt ↦ s ∷ t ∷ ts | Ordering.eq ↦ t ∷ ts | Ordering.gt ↦ t ∷ rest ]

-- BTreeSet::extend
unfoldable pub set_extend : List String → List String → List String
unfolding set_insert
set_extend set [] = set
set_extend set (s ∷ more) = set_extend (set_insert s set) more

module _ {ℓ} {V : Type ℓ} where
  -- BTreeMap::insert
  unfoldable pub insert : String → V → List (String × V) → List (String × V)
  insert k v [] = (k, v) ∷ []
  insert k v ((j, w) ∷ m) =
      let rest = insert k v m in
      elim (compare k j) [
        | Ordering.lt ↦ (k, v) ∷ (j, w) ∷ m
        | Ordering.eq ↦ (k, v) ∷ m
        | Ordering.gt ↦ (j, w) ∷ rest
      ]

  -- BTreeMap::get
  unfoldable pub lookup : String → List (String × V) → Option V
  lookup k [] = none
  lookup k ((j, w) ∷ m) = elim (k == j) [ true ↦ some w | false ↦ lookup k m ]

  -- A key that was just inserted is found with the value that it was given.
  pub lookup-insert_self :
      (k : String) (v : V) (m : List (String × V)) → lookup k (insert k v m) ≡ some v
  unfolding lookup insert
  lookup-insert_self k v [] = ground (arith, eq_refl k)
  lookup-insert_self k v ((j, w) ∷ m) =
      ground (arith, eq_refl k, lookup-insert_self k v m, eq_iff k j)
