-- ===== src/Core/Parameters/Wire.antt =====
-- The wire names of the enumerations (`Display` and `serde`, by the macro `string_enum`), and equality
-- of their values.
use imagegen_bridge.Prelude.{
  String, Bool, true, false, ◌||◌, ◌≡◌, refl, ap, ◌↔◌, List, [], ◌∷◌, text_eq, text_eq_iff, arith,
}
use imagegen_bridge.Core.Parameters.{
  Quality, OutputFormat, Background, Moderation, InputFidelity, ImageAction, Resolution, ImageSize,
}

-- A type of the macro: equality and the name of each value.
pub record Wire (A : Type 0) : Type 0 where
  pub name : A → String
  pub beq : A → A → Bool
  pub beq_iff : (a b : A) → (beq a b ≡ true) ↔ (a ≡ b)

unfoldable pub quality_name : Quality → String
quality_name Quality.auto = "auto"
quality_name Quality.low = "low"
quality_name Quality.medium = "medium"
quality_name Quality.high = "high"

unfoldable pub quality_eq : Quality → Quality → Bool
quality_eq Quality.auto Quality.auto = true
quality_eq Quality.low Quality.low = true
quality_eq Quality.medium Quality.medium = true
quality_eq Quality.high Quality.high = true
quality_eq _ _ = false

pub quality_eq_iff : (a b : Quality) → (quality_eq a b ≡ true) ↔ (a ≡ b)
unfolding quality_eq
quality_eq_iff a b = ground arith

instance abbrev pub quality_wire : Wire Quality
quality_wire = record { name = quality_name; beq = quality_eq; beq_iff = quality_eq_iff }

unfoldable pub output_format_name : OutputFormat → String
output_format_name OutputFormat.png = "png"
output_format_name OutputFormat.jpeg = "jpeg"
output_format_name OutputFormat.webp = "webp"

unfoldable pub output_format_eq : OutputFormat → OutputFormat → Bool
output_format_eq OutputFormat.png OutputFormat.png = true
output_format_eq OutputFormat.jpeg OutputFormat.jpeg = true
output_format_eq OutputFormat.webp OutputFormat.webp = true
output_format_eq _ _ = false

pub output_format_eq_iff : (a b : OutputFormat) → (output_format_eq a b ≡ true) ↔ (a ≡ b)
unfolding output_format_eq
output_format_eq_iff a b = ground arith

instance abbrev pub output_format_wire : Wire OutputFormat
output_format_wire = record {
  name = output_format_name;
  beq = output_format_eq;
  beq_iff = output_format_eq_iff;
}

unfoldable pub background_name : Background → String
background_name Background.auto = "auto"
background_name Background.opaque = "opaque"
background_name Background.transparent = "transparent"

unfoldable pub background_eq : Background → Background → Bool
background_eq Background.auto Background.auto = true
background_eq Background.opaque Background.opaque = true
background_eq Background.transparent Background.transparent = true
background_eq _ _ = false

pub background_eq_iff : (a b : Background) → (background_eq a b ≡ true) ↔ (a ≡ b)
unfolding background_eq
background_eq_iff a b = ground arith

instance abbrev pub background_wire : Wire Background
background_wire = record {
  name = background_name;
  beq = background_eq;
  beq_iff = background_eq_iff;
}

unfoldable pub moderation_name : Moderation → String
moderation_name Moderation.auto = "auto"
moderation_name Moderation.low = "low"

unfoldable pub moderation_eq : Moderation → Moderation → Bool
moderation_eq Moderation.auto Moderation.auto = true
moderation_eq Moderation.low Moderation.low = true
moderation_eq _ _ = false

pub moderation_eq_iff : (a b : Moderation) → (moderation_eq a b ≡ true) ↔ (a ≡ b)
unfolding moderation_eq
moderation_eq_iff a b = ground arith

instance abbrev pub moderation_wire : Wire Moderation
moderation_wire = record {
  name = moderation_name;
  beq = moderation_eq;
  beq_iff = moderation_eq_iff;
}

unfoldable pub input_fidelity_name : InputFidelity → String
input_fidelity_name InputFidelity.low = "low"
input_fidelity_name InputFidelity.high = "high"

unfoldable pub input_fidelity_eq : InputFidelity → InputFidelity → Bool
input_fidelity_eq InputFidelity.low InputFidelity.low = true
input_fidelity_eq InputFidelity.high InputFidelity.high = true
input_fidelity_eq _ _ = false

pub input_fidelity_eq_iff : (a b : InputFidelity) → (input_fidelity_eq a b ≡ true) ↔ (a ≡ b)
unfolding input_fidelity_eq
input_fidelity_eq_iff a b = ground arith

instance abbrev pub input_fidelity_wire : Wire InputFidelity
input_fidelity_wire = record {
  name = input_fidelity_name;
  beq = input_fidelity_eq;
  beq_iff = input_fidelity_eq_iff;
}

unfoldable pub image_action_name : ImageAction → String
image_action_name ImageAction.auto = "auto"
image_action_name ImageAction.generate = "generate"
image_action_name ImageAction.edit = "edit"

unfoldable pub image_action_eq : ImageAction → ImageAction → Bool
image_action_eq ImageAction.auto ImageAction.auto = true
image_action_eq ImageAction.generate ImageAction.generate = true
image_action_eq ImageAction.edit ImageAction.edit = true
image_action_eq _ _ = false

pub image_action_eq_iff : (a b : ImageAction) → (image_action_eq a b ≡ true) ↔ (a ≡ b)
unfolding image_action_eq
image_action_eq_iff a b = ground arith

instance abbrev pub image_action_wire : Wire ImageAction
image_action_wire = record {
  name = image_action_name;
  beq = image_action_eq;
  beq_iff = image_action_eq_iff;
}

unfoldable pub resolution_name : Resolution → String
resolution_name Resolution.one_k = "1k"
resolution_name Resolution.two_k = "2k"
resolution_name Resolution.four_k = "4k"

unfoldable pub resolution_eq : Resolution → Resolution → Bool
resolution_eq Resolution.one_k Resolution.one_k = true
resolution_eq Resolution.two_k Resolution.two_k = true
resolution_eq Resolution.four_k Resolution.four_k = true
resolution_eq _ _ = false

pub resolution_eq_iff : (a b : Resolution) → (resolution_eq a b ≡ true) ↔ (a ≡ b)
unfolding resolution_eq
resolution_eq_iff a b = ground arith

instance abbrev pub resolution_wire : Wire Resolution
resolution_wire = record {
  name = resolution_name;
  beq = resolution_eq;
  beq_iff = resolution_eq_iff;
}

unfoldable pub size_eq : ImageSize → ImageSize → Bool
size_eq a b = text_eq a.value b.value

pub size_eq_iff : (a b : ImageSize) → (size_eq a b ≡ true) ↔ (a ≡ b)
unfolding size_eq
size_eq_iff a b = (
  λ h.
      ap (λ (v : String). let s : ImageSize = record { value = v } in s)
        ((text_eq_iff a.value b.value).0 h),
  λ e. (text_eq_iff a.value b.value).1 (ap (λ s. s.value) e),
)

instance abbrev pub size_wire : Wire ImageSize
size_wire = record { name = λ s. s.value; beq = size_eq; beq_iff = size_eq_iff }

-- BTreeSet::contains and BTreeSet::get, on a set as the list of its elements in ascending order.
module _ {A : Type 0} ⦃w : Wire A⦄ where
  unfoldable pub contains : List A → A → Bool
  contains [] a = false
  contains (x ∷ xs) a = w.beq x a || contains xs a

  pub contains-head : (x : A) (xs : List A) → contains (x ∷ xs) x ≡ true
  unfolding contains
  contains-head x xs = rw ((w.beq_iff x x).1 refl)
