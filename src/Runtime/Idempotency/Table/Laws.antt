-- ===== src/Runtime/Idempotency/Table/Laws.antt =====
-- The laws of the table of crates/runtime/src/idempotency.rs.
use imagegen_bridge.Prelude.{
  ℕ, ◌+◌, ◌≡◌, refl, ◌∙◌, subst, Bool, true, false, ◌↔◌, inl, inr, none, some, List, [], ◌∷◌, arith,
  length, text_eq_iff, Bool-cases, Option-cases, is_some,
}
use imagegen_bridge.Runtime.Idempotency.Table.{RecordKey, key_eq, find, update, delete, oldest}

pub key_eq_iff : (a b : RecordKey) → (key_eq a b ≡ true) ↔ (a ≡ b)
unfolding key_eq
key_eq_iff a b = ground (arith, text_eq_iff a.scope b.scope, text_eq_iff a.key b.key)

pub key_eq_refl : (a : RecordKey) → key_eq a a ≡ true
key_eq_refl a = (key_eq_iff a a).1 refl

pub key_eq_ne : (a b : RecordKey) → key_eq a b ≡ false → key_eq b a ≡ false
key_eq_ne a b h = elim (Bool-cases (key_eq b a)) [
  | inl same ↦
      let e : b ≡ a = (key_eq_iff b a).0 same in
      subst (λ x. key_eq b x ≡ false) e (ground (arith, key_eq_refl b, e, h))
  | inr other ↦ other
]

-- The number that the entries of a table add up to.
unfoldable pub total : {V : Type 0} → (V → ℕ) → List (RecordKey × V) → ℕ
total weight [] = 0
total weight ((j, v) ∷ table) = weight v + total weight table

module _ {V : Type 0} where
  pub total-delete :
      (weight : V → ℕ) (k : RecordKey) (v : V) (table : List (RecordKey × V))
      → find k table ≡ some v
      → total weight (delete k table) + weight v ≡ total weight table
  unfolding find delete total
  total-delete weight k v [] h = cc
  total-delete weight k v ((j, w) ∷ table) h = ground (arith, total-delete weight k v table)

  pub length-delete :
      (k : RecordKey) (v : V) (table : List (RecordKey × V))
      → find k table ≡ some v
      → length (delete k table) + 1 ≡ length table
  unfolding find delete
  length-delete k v [] h = cc
  length-delete k v ((j, w) ∷ table) h = ground (arith, length-delete k v table)

  pub total-update :
      (weight : V → ℕ) (k : RecordKey) (v v' : V) (table : List (RecordKey × V))
      → find k table ≡ some v
      → total weight (update k v' table) + weight v ≡ total weight table + weight v'
  unfolding find update total
  total-update weight k v v' [] h = cc
  total-update weight k v v' ((j, w) ∷ table) h = ground (arith, total-update weight k v v' table)

  pub length-update :
      (k : RecordKey) (v : V) (table : List (RecordKey × V))
      → length (update k v table) ≡ length table
  unfolding update
  length-update k v [] = refl
  length-update k v ((j, w) ∷ table) = ground (arith, length-update k v table)

  pub find-update_self :
      (k : RecordKey) (v v' : V) (table : List (RecordKey × V))
      → find k table ≡ some v
      → find k (update k v' table) ≡ some v'
  unfolding find update
  find-update_self k v v' [] h = cc
  find-update_self k v v' ((j, w) ∷ table) h = ground (arith, find-update_self k v v' table)

  pub find-update_ne :
      (k j : RecordKey) (v : V) (table : List (RecordKey × V))
      → key_eq k j ≡ false
      → find k (update j v table) ≡ find k table
  unfolding find update
  find-update_ne k j v [] h = refl
  find-update_ne k j v ((i, w) ∷ table) h =
      ground (arith, find-update_ne k j v table, key_eq_iff j i, key_eq_iff k i, key_eq_iff k j)

  pub find-delete_ne :
      (k j : RecordKey) (table : List (RecordKey × V))
      → key_eq k j ≡ false
      → find k (delete j table) ≡ find k table
  unfolding find delete
  find-delete_ne k j [] h = refl
  find-delete_ne k j ((i, w) ∷ table) h =
      ground (arith, find-delete_ne k j table, key_eq_iff j i, key_eq_iff k i, key_eq_iff k j)

  pub find-delete_none :
      (k j : RecordKey) (table : List (RecordKey × V))
      → find k table ≡ none
      → find k (delete j table) ≡ none
  unfolding find delete
  find-delete_none k j [] h = refl
  find-delete_none k j ((i, w) ∷ table) h = ground (arith, find-delete_none k j table)

  pub find-update_none :
      (k j : RecordKey) (v : V) (table : List (RecordKey × V))
      → find k table ≡ none
      → find k (update j v table) ≡ none
  unfolding find update
  find-update_none k j v [] h = refl
  find-update_none k j v ((i, w) ∷ table) h = ground (arith, find-update_none k j v table)

  -- No key stands twice.
  abbrev pub Distinct : List (RecordKey × V) → Type 0
  Distinct [] = Unit
  Distinct ((j, v) ∷ table) = (find j table ≡ none) × Distinct table

  pub delete-Distinct :
      (k : RecordKey) (table : List (RecordKey × V)) → Distinct table → Distinct (delete k table)
  unfolding delete
  delete-Distinct k [] h = tt
  delete-Distinct k ((j, w) ∷ table) h = elim (Bool-cases (key_eq k j)) [
    | inl same ↦ rw (same, Distinct) h.1
    | inr other ↦
        rw (other, Distinct)
          (find-delete_ne j k table (key_eq_ne k j other) ∙ h.0, delete-Distinct k table h.1)
  ]

  pub update-Distinct :
      (k : RecordKey) (v : V) (table : List (RecordKey × V))
      → Distinct table
      → Distinct (update k v table)
  unfolding update
  update-Distinct k v [] h = tt
  update-Distinct k v ((j, w) ∷ table) h = elim (Bool-cases (key_eq k j)) [
    | inl same ↦ rw (same, Distinct) h
    | inr other ↦
        rw (other, Distinct)
          (find-update_ne j k v table (key_eq_ne k j other) ∙ h.0, update-Distinct k v table h.1)
  ]

  module _ (test : RecordKey → V → Bool) (age : V → ℕ) where
    pub oldest-is_some :
        (j : RecordKey) (v : V) (table : List (RecordKey × V))
        → oldest test age table ≡ some (j, v)
        → is_some (find j table) ≡ true
    unfolding oldest find
    oldest-is_some j v [] h = cc
    oldest-is_some j v ((i, w) ∷ table) h =
        ground
          (arith, oldest-is_some j v table, Option-cases (oldest test age table), key_eq_refl i)

    -- The oldest entry is in the table, and passes the test.
    pub oldest-find :
        (j : RecordKey) (v : V) (table : List (RecordKey × V))
        → Distinct table
        → oldest test age table ≡ some (j, v)
        → (find j table ≡ some v) × (test j v ≡ true)
    unfolding oldest find
    oldest-find j v [] d h = cc
    oldest-find j v ((i, w) ∷ table) d h = ground (
      arith,
      oldest-find j v table d.1,
      Option-cases (oldest test age table),
      key_eq_refl i,
      key_eq_iff j i,
      d.0,
    )
