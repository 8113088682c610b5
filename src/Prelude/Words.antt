-- ===== src/Prelude/Words.antt =====
-- Unsigned machine integers: their bounds, and saturating arithmetic.
use Prim.Native.Nat.{ℕ, ◌+◌, ◌-◌, ◌%◌, min}

abbrev pub u8_max : ℕ
u8_max = 255

abbrev pub u32_max : ℕ
u32_max = 4294967295

abbrev pub u64_max : ℕ
u64_max = 18446744073709551615

-- u32::saturating_add, u64::saturating_add, and saturating_sub at any width.
abbrev pub saturating_add_u32 : ℕ → ℕ → ℕ
saturating_add_u32 a b = min (a + b) u32_max

abbrev pub saturating_add_u64 : ℕ → ℕ → ℕ
saturating_add_u64 a b = min (a + b) u64_max

abbrev pub saturating_sub : ℕ → ℕ → ℕ
saturating_sub a b = a - b

-- `+` on u8, which wraps around.
abbrev pub wrapping_add_u8 : ℕ → ℕ → ℕ
wrapping_add_u8 a b = (a + b) % 256
