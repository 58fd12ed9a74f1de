-- ===== src/Gnss/Fields.antt =====
-- util.rs: the fields of a GNSS sentence. A parser of the standard library is a parameter.
pub mod Printed
use nmea_parser.Common.{
  ℕ, ◌^◌, true, false, Option, none, some, List, [], get_elem?, get_or, Outcome, ok, err, panic,
  invalid_sentence, ok_or,
}
use nmea_parser.Text.{Text, is_empty, parse_unsigned}
use nmea_parser.Numbers.{F64}
use nmea_parser.Gnss.Libraries.{Libraries}

abbrev pub parsed_field : {A : Type 0} → (Text → Option A) → Text → Outcome (Option A)
parsed_field parse s = elim (is_empty s) [
  | true ↦ ok none
  | false ↦ elim (parse s) [ some a ↦ ok (some a) | none ↦ err invalid_sentence ]
]

unfoldable pub pick_number_field :
    {A : Type 0} → (Text → Option A) → List Text → ℕ → Outcome (Option A)
pick_number_field parse split num = elim (get_elem? split num) [
  | none ↦ ok none
  | some s ↦ parsed_field parse s
]

abbrev non_empty : Text → Option Text
non_empty [] = none
non_empty s = some s

-- `split.get(num).unwrap_or(&"")`.
abbrev pub field_or_empty : List Text → ℕ → Text
field_or_empty split num = get_or split num []

unfoldable pub pick_string_field : List Text → ℕ → Option Text
pick_string_field split num = non_empty (field_or_empty split num)

-- `pick_number_field` at u8, u16, u32 and f64.
abbrev pub pick_u8_field : List Text → ℕ → Outcome (Option ℕ)
pick_u8_field = pick_number_field (parse_unsigned (2 ^ 8))

abbrev pub pick_u16_field : List Text → ℕ → Outcome (Option ℕ)
pick_u16_field = pick_number_field (parse_unsigned (2 ^ 16))

abbrev pub pick_u32_field : List Text → ℕ → Outcome (Option ℕ)
pick_u32_field = pick_number_field (parse_unsigned (2 ^ 32))

abbrev pub pick_f64_field : {F : Type 0} → F64 F → List Text → ℕ → Outcome (Option F)
pick_f64_field f64 = pick_number_field f64.parse

-- `.ok().unwrap_or(None)`.
abbrev pub or_none : {A : Type 0} → Outcome (Option A) → Option A
or_none (ok o) = o
or_none (err e) = none
or_none panic = none

-- `.ok()`; a panic goes on.
abbrev pub to_option : {A : Type 0} → Outcome A → Outcome (Option A)
to_option (ok a) = ok (some a)
to_option (err e) = ok none
to_option panic = panic

-- `s.parse()?`.
abbrev pub parse_or_err : {A : Type 0} → (Text → Option A) → Text → Outcome A
parse_or_err parse s = ok_or (parse s) invalid_sentence

module _ {S Z : Type 0} (libs : Libraries S Z) where
  open libs use {from_str_radix}

  -- `pick_hex_field` at an unsigned integer of `width` bits.
  unfoldable pub pick_hex_field : ℕ → List Text → ℕ → Outcome (Option ℕ)
  unfolding pick_number_field
  pick_hex_field width split num = pick_number_field (λ s. from_str_radix width s 16) split num
