-- ===== src/Core/Parameters/Sizes.antt =====
-- `ImageSize` and `AspectRatio` of crates/core/src/parameters.rs.
use imagegen_bridge.Prelude.{
  ℕ, Bool, true, false, ◌||◌, Option, none, some, text_eq, ◌==◌, if◌then◌else◌,
}
use Prim.Native.String.{◌++◌}
use imagegen_bridge.Core.Error.{ErrorCode, bridge_error, Result, ok, err}
use imagegen_bridge.Core.Parameters.{ImageSize}
use imagegen_bridge.Core.Parameters.Decimal.{show_nat, parse_u32, split_once}

unfoldable pub is_auto : ImageSize → Bool
is_auto s = text_eq s.value "auto"

-- ImageSize::exact
unfoldable pub exact : ℕ → ℕ → Result ImageSize
exact width height =
    if width == 0 || height == 0
    then err (bridge_error ErrorCode.invalid_request "image dimensions must be greater than zero")
    else ok (record { value = show_nat width ++ ("x" ++ show_nat height) })

both : Option ℕ → Option ℕ → Option (ℕ × ℕ)
both (some a) (some b) = some (a, b)
both _ _ = none

-- ImageSize::dimensions
unfoldable pub dimensions : ImageSize → Option (ℕ × ℕ)
unfolding is_auto both
dimensions s = elim (is_auto s) [
  | true ↦ none
  | false ↦ elim (split_once b'x' s.value) [
    | none ↦ none
    | some (width, height) ↦ both (parse_u32 width) (parse_u32 height)
  ]
]
