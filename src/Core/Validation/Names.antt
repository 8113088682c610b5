-- ===== src/Core/Validation/Names.antt =====
-- The texts that crates/core/src/validation.rs accepts as names, paths and colors.
use Prim.Native.Char.{Char, code}
use imagegen_bridge.Prelude.{
  ℕ, ◌+◌, String, Bool, true, false, ◌&&◌, ◌||◌, not, Option, none, some, leb, ltb, ◌==◌,
  if◌then◌else◌, text_eq, text_len, any_char, all_chars,
}
use imagegen_bridge.Core.Parameters.{OutputFormat}
use imagegen_bridge.Core.Parameters.Decimal.{is_digit, split_once}

-- char::is_ascii_alphanumeric
abbrev pub is_alphanumeric : Char → Bool
is_alphanumeric c =
    is_digit c || (leb 65 (code c) && leb (code c) 90) || (leb 97 (code c) && leb (code c) 122)

-- char::is_ascii_hexdigit
abbrev pub is_hexdigit : Char → Bool
is_hexdigit c =
    is_digit c || (leb 65 (code c) && leb (code c) 70) || (leb 97 (code c) && leb (code c) 102)

-- An alphanumeric character, `-`, `_` or `.`.
abbrev pub is_portable : Char → Bool
is_portable c = is_alphanumeric c || code c == 45 || code c == 95 || code c == 46

-- str::starts_with, of a character.
abbrev pub starts_with : ℕ → String → Bool
starts_with mark String.[] = false
starts_with mark (String.◌∷◌ c s) = code c == mark

-- str::strip_prefix, of `#`, with the text itself as the default.
abbrev pub strip_hash : String → String
strip_hash String.[] = ""
strip_hash (String.◌∷◌ c s) = if code c == 35 then s else String.◌∷◌ c s

unfoldable pub valid_hex_color : String → Bool
valid_hex_color value = text_len (strip_hash value) == 6 && all_chars is_hexdigit (strip_hash value)

abbrev pub valid_component : String → Bool
valid_component component =
    not (text_len component == 0)
    && not (text_eq component ".")
    && not (text_eq component "..")
    && leb (text_len component) 128
    && not (starts_with 46 component)
    && all_chars is_portable component

-- Whether each component between two slashes is valid; `component` has the characters of the first one
-- that have been read.
unfoldable pub valid_components : (String → String) → String → Bool
valid_components component String.[] = valid_component (component "")
valid_components component (String.◌∷◌ c s) =
    let first = valid_components (λ t. t) s in
    let more = valid_components (λ t. component (String.◌∷◌ c t)) s in
    if code c == 47 then valid_component (component "") && first else more

unfoldable pub valid_portable_directory : String → Bool
unfolding valid_components
valid_portable_directory value =
    not (text_len value == 0) && leb (text_len value) 512 && valid_components (λ t. t) value

-- str::rsplit_once, of which the second half is the extension.
unfoldable pub extension_of : String → Option String
extension_of value = elim (split_once 46 value) [
  | none ↦ none
  | some (stem, rest) ↦ some (last_extension rest)
]
  where
    last_extension : String → String
    last_extension String.[] = ""
    last_extension (String.◌∷◌ c s) =
        let later = last_extension s in
        if any_char (λ d. code d == 46) (String.◌∷◌ c s) then later else String.◌∷◌ c s

-- char::to_ascii_lowercase, as a code.
abbrev lower : Char → ℕ
lower c = if leb 65 (code c) && leb (code c) 90 then code c + 32 else code c

-- str::eq_ignore_ascii_case
unfoldable pub eq_ignore_case : String → String → Bool
eq_ignore_case String.[] String.[] = true
eq_ignore_case (String.◌∷◌ c s) (String.◌∷◌ d t) = lower c == lower d && eq_ignore_case s t
eq_ignore_case _ _ = false

unfoldable pub extension_matches : OutputFormat → String → Bool
unfolding eq_ignore_case
extension_matches OutputFormat.png extension = eq_ignore_case extension "png"
extension_matches OutputFormat.jpeg extension =
    eq_ignore_case extension "jpg" || eq_ignore_case extension "jpeg"
extension_matches OutputFormat.webp extension = eq_ignore_case extension "webp"

unfoldable pub valid_output_filename : String → OutputFormat → Bool
unfolding extension_of extension_matches
valid_output_filename value format =
    if text_len value == 0
      || ltb 160 (text_len value)
      || starts_with 46 value
      || any_char (λ c. code c == 47 || code c == 92) value
      || not (all_chars is_portable value)
    then false
    else elim (extension_of value) [
      | none ↦ true
      | some extension ↦ extension_matches format extension
    ]
