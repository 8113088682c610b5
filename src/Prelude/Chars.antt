-- ===== src/Prelude/Chars.antt =====
-- Characters as Rust's standard library classes them, and texts as sequences of characters.
use Prim.Native.Char.{Char, code}
use Prim.Native.String.{String}
use Prim.Native.Nat.{ℕ, ◌+◌}
use mathlib.Core.Bool.{Bool, true, false, ◌&&◌, ◌||◌}
use imagegen_bridge.Prelude.Tests.{leb, ◌==◌, if◌then◌else◌}

-- char::len_utf8
abbrev pub char_len : Char → ℕ
char_len c =
    if leb (code c) 127
    then 1
    else if leb (code c) 2047
    then 2
    else if leb (code c) 65535
    then 3
    else 4

-- str::len
unfoldable pub text_len : String → ℕ
text_len String.[] = 0
text_len (String.◌∷◌ c s) = char_len c + text_len s

-- char::is_control
abbrev pub is_control : Char → Bool
is_control c = leb (code c) 31 || (leb 127 (code c) && leb (code c) 159)

-- char::is_whitespace
abbrev pub is_whitespace : Char → Bool
is_whitespace c =
    (leb 9 (code c) && leb (code c) 13)
    || code c == 32
    || code c == 133
    || code c == 160
    || code c == 5760
    || (leb 8192 (code c) && leb (code c) 8202)
    || code c == 8232
    || code c == 8233
    || code c == 8239
    || code c == 8287
    || code c == 12288

-- str::chars().any and str::chars().all
unfoldable pub any_char : (Char → Bool) → String → Bool
any_char test String.[] = false
any_char test (String.◌∷◌ c s) = test c || any_char test s

unfoldable pub all_chars : (Char → Bool) → String → Bool
all_chars test String.[] = true
all_chars test (String.◌∷◌ c s) = test c && all_chars test s

-- str::trim().is_empty()
unfoldable pub is_blank : String → Bool
unfolding all_chars
is_blank s = all_chars is_whitespace s
