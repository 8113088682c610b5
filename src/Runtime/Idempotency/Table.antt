-- ===== src/Runtime/Idempotency/Table.antt =====
-- The keys of crates/runtime/src/idempotency.rs, and the operations of its `HashMap`.
pub mod Laws
use imagegen_bridge.Prelude.{
  ℕ, String, Bool, true, false, ◌&&◌, Option, none, some, List, [], ◌∷◌, ltb, text_eq,
  if◌then◌else◌,
}

pub record RecordKey : Type 0 where
  pub scope : String
  pub key : String

unfoldable pub key_eq : RecordKey → RecordKey → Bool
key_eq a b = text_eq a.scope b.scope && text_eq a.key b.key

module _ {V : Type 0} where
  -- HashMap::get
  unfoldable pub find : RecordKey → List (RecordKey × V) → Option V
  find k [] = none
  find k ((j, v) ∷ table) = elim (key_eq k j) [ true ↦ some v | false ↦ find k table ]

  -- HashMap::get_mut and a write to the entry.
  unfoldable pub update : RecordKey → V → List (RecordKey × V) → List (RecordKey × V)
  update k v [] = []
  update k v ((j, w) ∷ table) = elim (key_eq k j) [
    | true ↦ (j, v) ∷ table
    | false ↦ (j, w) ∷ update k v table
  ]

  -- HashMap::remove
  unfoldable pub delete : RecordKey → List (RecordKey × V) → List (RecordKey × V)
  delete k [] = []
  delete k ((j, w) ∷ table) = elim (key_eq k j) [ true ↦ table | false ↦ (j, w) ∷ delete k table ]

  abbrev pub older : (V → ℕ) → RecordKey × V → Option (RecordKey × V) → Option (RecordKey × V)
  older age e none = some e
  older age e (some best) = if ltb (age best.1) (age e.1) then some best else some e

  -- `filter` with `min_by_key`: the first of the least.
  unfoldable pub oldest :
      (RecordKey → V → Bool) → (V → ℕ) → List (RecordKey × V) → Option (RecordKey × V)
  oldest test age [] = none
  oldest test age (e ∷ table) =
      let best = oldest test age table in if test e.0 e.1 then older age e best else best
