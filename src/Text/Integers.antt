-- ===== src/Text/Integers.antt =====
-- `s.parse::<i32>()`: an optional sign and at least one digit, in the range of the type.
use nmea_parser.Common.{
  ℕ, ◌^◌, Option, none, some, [], ◌∷◌, ltb, leb, ◌==◌, if◌then◌else◌, ℤ, pos, sub_ℕ,
}
use nmea_parser.Text.{Text, digits_value}

at_most_pos : ℕ → Option ℕ → Option ℤ
at_most_pos m none = none
at_most_pos m (some n) = if ltb n m then some (pos n) else none

at_most_neg : ℕ → Option ℕ → Option ℤ
at_most_neg m none = none
at_most_neg m (some n) = if leb n m then some (sub_ℕ 0 n) else none

-- The digits behind a sign, if there is any.
digits_or_none : Text → Option ℕ
unfolding digits_value
digits_or_none [] = none
digits_or_none (c ∷ t) = digits_value (c ∷ t) 0

unfoldable pub parse_i32 : Text → Option ℤ
unfolding at_most_pos at_most_neg digits_or_none
parse_i32 [] = none
parse_i32 (c ∷ t) =
    if c == b'-'
    then at_most_neg (2 ^ 31) (digits_or_none t)
    else if c == b'+'
    then at_most_pos (2 ^ 31) (digits_or_none t)
    else at_most_pos (2 ^ 31) (digits_or_none (c ∷ t))
