-- ===== src/Prelude/Sorting.antt =====
-- Sorting by a number, and sums over lists, which sorting keeps.
use Prim.Native.Nat.{ℕ, ◌+◌, ◌≤◌}
use mathlib.Core.Path.{◌≡◌, refl}
use mathlib.Core.Logic.{inl, inr}
use mathlib.Core.List.{List, [], ◌∷◌, ◌++◌, map}
use native.Mathlib.Omega.{arith}
use imagegen_bridge.Prelude.Tests.{Bool-cases, leb, if◌then◌else◌}
use imagegen_bridge.Prelude.Lists.{All}

module _ {A : Type 0} where
  -- The element stands before the first of a larger key.
  unfoldable pub insert_by : (A → ℕ) → A → List A → List A
  insert_by key x [] = x ∷ []
  insert_by key x (y ∷ ys) =
      let rest = insert_by key x ys in if leb (key x) (key y) then x ∷ y ∷ ys else y ∷ rest

  -- slice::sort_by_key, which is stable
  unfoldable pub sort_by_key : (A → ℕ) → List A → List A
  unfolding insert_by
  sort_by_key key [] = []
  sort_by_key key (x ∷ xs) = insert_by key x (sort_by_key key xs)

  unfoldable pub sum_of : (A → ℕ) → List A → ℕ
  sum_of w [] = 0
  sum_of w (x ∷ xs) = w x + sum_of w xs

  pub sum_of-append : (w : A → ℕ) (xs ys : List A) → sum_of w (xs ++ ys) ≡ sum_of w xs + sum_of w ys
  unfolding sum_of
  sum_of-append w [] ys = omega arith
  sum_of-append w (x ∷ xs) ys = omega (arith, sum_of-append w xs ys)

  pub sum_of-insert_by :
      (w key : A → ℕ) (x : A) (xs : List A) → sum_of w (insert_by key x xs) ≡ w x + sum_of w xs
  unfolding sum_of insert_by
  sum_of-insert_by w key x [] = refl
  sum_of-insert_by w key x (y ∷ ys) = ground (arith, sum_of-insert_by w key x ys)

  pub sum_of-sort_by_key :
      (w key : A → ℕ) (xs : List A) → sum_of w (sort_by_key key xs) ≡ sum_of w xs
  unfolding sum_of sort_by_key
  sum_of-sort_by_key w key [] = refl
  sum_of-sort_by_key w key (x ∷ xs) =
      ground (arith, sum_of-insert_by w key x (sort_by_key key xs), sum_of-sort_by_key w key xs)

  -- In ascending order of the key.
  abbrev pub Ascending : (A → ℕ) → List A → Type 0
  Ascending key [] = Unit
  Ascending key (x ∷ xs) = All (λ y. key x ≤ key y) xs × Ascending key xs

pub sum_of-map :
    {A B : Type 0} (w : B → ℕ) (f : A → B) (xs : List A)
    → sum_of w (map f xs) ≡ sum_of (λ x. w (f x)) xs
unfolding sum_of
sum_of-map w f [] = refl
sum_of-map w f (x ∷ xs) = ground (arith, sum_of-map w f xs)

module _ {A : Type 0} (key : A → ℕ) where
  All-insert_by :
      (P : A → Type 0) (x : A) (xs : List A) → P x → All P xs → All P (insert_by key x xs)
  unfolding insert_by
  All-insert_by P x [] p ps = (p, ps)
  All-insert_by P x (y ∷ ys) p ps = elim (Bool-cases (leb (key x) (key y))) [
    | inl first ↦ rw (first, insert_by) (p, ps)
    | inr later ↦ rw (later, insert_by) (ps.0, All-insert_by P x ys p ps.1)
  ]

  All-le : (n m : ℕ) (xs : List A) → n ≤ m → All (λ y. m ≤ key y) xs → All (λ y. n ≤ key y) xs
  All-le n m [] h a = tt
  All-le n m (x ∷ xs) h a = (omega (arith, h, a.0), All-le n m xs h a.1)

  insert_by-Ascending :
      (x : A) (xs : List A) → Ascending key xs → Ascending key (insert_by key x xs)
  unfolding insert_by
  insert_by-Ascending x [] h = (tt, tt)
  insert_by-Ascending x (y ∷ ys) h = elim (Bool-cases (leb (key x) (key y))) [
    | inl first ↦
        let less : key x ≤ key y = ground (arith, first) in
        rw (first, insert_by) ((less, All-le (key x) (key y) ys less h.0), h)
    | inr later ↦
        rw (later, insert_by)
          (
            All-insert_by (λ z. key y ≤ key z) x ys (ground (arith, later)) h.0,
            insert_by-Ascending x ys h.1,
          )
  ]

  pub sort_by_key-Ascending : (xs : List A) → Ascending key (sort_by_key key xs)
  unfolding sort_by_key
  sort_by_key-Ascending [] = tt
  sort_by_key-Ascending (x ∷ xs) =
      insert_by-Ascending x (sort_by_key key xs) (sort_by_key-Ascending xs)
