-- ===== src/Config/Models.antt =====
-- backend/configuration/models.py: the settings, their default values and their checks.
-- A frozen dataclass is a list of its fields, each with its default value and with what
-- `__post_init__` asks of it, and an instance is the record of its fields in this order. `none`
-- stands for the TypeError or the ValueError of a value that is refused.
pub mod Schema
pub mod Built
pub mod Application
pub mod RoundTrip
use mathlib.Core.Option
use lluna.Prelude.{
  ℕ, String, Bool, true, false, not, ◌&&◌, ◌||◌, Option, none, some, List, [], ◌∷◌, ◌≡◌, refl, map,
  if◌then◌else◌,
}
use lluna.Prelude.Key.{string_key}
use lluna.Prelude.Sets.{elem}
use lluna.Prelude.Dict.{get?, get_or}
use lluna.Prelude.Int.{ℤ, int_beq}
use lluna.Json.{
  Json, Record, text, whole, decimal, truth, object, end, Conversions, to_dict, to_int, to_str,
  to_number, number_lt, entries, fields,
}

pub data Check : Type 0 where
  -- `isinstance(value, bool)`
  boolean : Check
  -- `_string`
  string : Check
  -- `_bounded`
  bounded : ℕ → ℕ → Check
  -- `minimum <= float(value) <= maximum`
  between : ℕ → ℕ → Check
  -- `value in {...}`
  one_of : List String → Check

pub record Setting : Type 0 where
  pub name : String
  pub default : Json
  pub check : Check

-- `minimum <= value <= maximum`
abbrev pub in_range : ℕ → ℕ → ℤ × ℕ → Bool
in_range minimum maximum value =
    not (number_lt value (ℤ.pos minimum, 0)) && not (number_lt (ℤ.pos maximum, 0) value)

-- Python's `float` of a text, where None is an exception or a value that is no number.
abbrev pub FloatOf : Type 0
FloatOf = String → Option (ℤ × ℕ)

unfoldable pub to_float : FloatOf → Json → Option (ℤ × ℕ)
unfolding to_number
to_float float_of (text s) = float_of s
to_float float_of (truth b) = some (ℤ.pos (if b then 1 else 0), 0)
to_float float_of value = to_number value

unfoldable pub passes : FloatOf → Check → Json → Bool
unfolding number_lt to_float elem
passes float_of boolean (truth b) = true
passes float_of string (text s) = true
passes float_of (bounded minimum maximum) (whole i) = in_range minimum maximum (i, 0)
passes float_of (between minimum maximum) value = elim (to_float float_of value) [
  | none ↦ false
  | some number ↦ in_range minimum maximum number
]
passes float_of (one_of values) (text s) = elem s values
passes float_of check value = false

abbrev pub names : List Setting → List String
names settings = map Setting.name settings

-- The constructor: each field has the value given, or its default, and is checked.
unfoldable pub init_fields : FloatOf → List Setting → Record → Option Record
unfolding get_or get?
init_fields float_of [] values = some []
init_fields float_of (s ∷ settings) values =
    let rest = init_fields float_of settings values in
    let value = get_or s.default s.name values in
    if passes float_of s.check value then Option.map (λ r. (s.name, value) ∷ r) rest else none

-- Only fields of the class are taken as keyword arguments.
unfoldable pub all_known : List String → Record → Bool
all_known known [] = true
all_known known ((key, value) ∷ values) = elem key known && all_known known values

-- `cls(**values)`
unfoldable pub construct : FloatOf → List Setting → Record → Option Record
unfolding all_known init_fields
construct float_of settings values =
    if all_known (names settings) values then init_fields float_of settings values else none

-- `{key: value for key, value in values.items() if key in allowed}`
unfoldable pub only_known : List String → Record → Record
only_known known [] = []
only_known known ((key, value) ∷ values) =
    let rest = only_known known values in if elem key known then (key, value) ∷ rest else rest
