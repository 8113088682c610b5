-- ===== src/Codex/Sse/Utf8.antt =====
-- The test of `str::from_utf8`, which crates/codex-responses/src/sse.rs applies to each line.
use imagegen_bridge.Prelude.{
  ℕ, Bool, true, false, ◌&&◌, Option, none, some, List, [], ◌∷◌, leb, ltb, ◌==◌, if◌then◌else◌,
}

abbrev tail : ℕ × ℕ
tail = (128, 191)

-- The ranges of the bytes that follow a first byte.
follows : ℕ → Option (List (ℕ × ℕ))
follows b =
    if leb b 127
    then some []
    else if ltb b 194
    then none
    else if leb b 223
    then some (tail ∷ [])
    else if b == 224
    then some ((160, 191) ∷ tail ∷ [])
    else if b == 237
    then some ((128, 159) ∷ tail ∷ [])
    else if leb b 239
    then some (tail ∷ tail ∷ [])
    else if b == 240
    then some ((144, 191) ∷ tail ∷ tail ∷ [])
    else if leb b 243
    then some (tail ∷ tail ∷ tail ∷ [])
    else if b == 244
    then some ((128, 143) ∷ tail ∷ tail ∷ [])
    else none

-- The bytes after those whose successors have to be in the given ranges.
well_formed : List (ℕ × ℕ) → List ℕ → Bool
unfolding follows
well_formed [] [] = true
well_formed (r ∷ rs) [] = false
well_formed [] (b ∷ bs) = elim (follows b) [ none ↦ false | some rs ↦ well_formed rs bs ]
well_formed ((low, high) ∷ rs) (b ∷ bs) = leb low b && leb b high && well_formed rs bs

unfoldable pub from_utf8 : List ℕ → Bool
unfolding well_formed
from_utf8 bs = well_formed [] bs
