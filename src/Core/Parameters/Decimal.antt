-- ===== src/Core/Parameters/Decimal.antt =====
-- Decimal text: what `str::split_once`, `u32::to_string` and `u32::from_str` of Rust's standard library
-- do with the texts of sizes and ratios.
use Prim.Native.Char.{Char, code}
use imagegen_bridge.Prelude.{
  ℕ, zero, suc, ◌+◌, ◌-◌, ◌*◌, ◌/◌, ◌%◌, String, Bool, true, false, ◌&&◌, Option, none, some, ltb,
  leb, ◌==◌, if◌then◌else◌, u32_max,
}

unfoldable pub digit_char : ℕ → Char
digit_char zero = "0"
digit_char (suc zero) = "1"
digit_char (suc (suc zero)) = "2"
digit_char (suc (suc (suc zero))) = "3"
digit_char (suc (suc (suc (suc zero)))) = "4"
digit_char (suc (suc (suc (suc (suc zero))))) = "5"
digit_char (suc (suc (suc (suc (suc (suc zero)))))) = "6"
digit_char (suc (suc (suc (suc (suc (suc (suc zero))))))) = "7"
digit_char (suc (suc (suc (suc (suc (suc (suc (suc zero)))))))) = "8"
digit_char _ = "9"

abbrev pub is_digit : Char → Bool
is_digit c = leb 48 (code c) && leb (code c) 57

-- The digits of a number in front of a text, with fuel above the number.
unfoldable pub show_onto : ℕ → ℕ → String → String
show_onto zero n rest = rest
show_onto (suc f) n rest =
    let more = show_onto f (n / 10) (String.◌∷◌ (digit_char (n % 10)) rest) in
    if ltb n 10 then String.◌∷◌ (digit_char n) rest else more

-- u32::to_string
unfoldable pub show_nat : ℕ → String
show_nat n = show_onto (suc n) n ""

unfoldable pub parse_digits : ℕ → String → Option ℕ
parse_digits acc String.[] = some acc
parse_digits acc (String.◌∷◌ c s) =
    let acc' = acc * 10 + (code c - 48) in
    let rest = parse_digits acc' s in if is_digit c && leb acc' u32_max then rest else none

-- u32::from_str: an optional plus sign, then digits, with a check for overflow.
unfoldable pub parse_u32 : String → Option ℕ
parse_u32 String.[] = none
parse_u32 (String.◌∷◌ c String.[]) = parse_digits 0 (String.◌∷◌ c String.[])
parse_u32 (String.◌∷◌ c (String.◌∷◌ d s)) =
    if code c == b'+'
    then parse_digits 0 (String.◌∷◌ d s)
    else parse_digits 0 (String.◌∷◌ c (String.◌∷◌ d s))

-- str::split_once, at a character.
unfoldable pub split_once : ℕ → String → Option (String × String)
split_once mark String.[] = none
split_once mark (String.◌∷◌ c s) = elim (code c == mark) [
  | true ↦ some ("", s)
  | false ↦ elim (split_once mark s) [ none ↦ none | some (a, b) ↦ some (String.◌∷◌ c a, b) ]
]
