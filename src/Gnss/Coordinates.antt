-- ===== src/Gnss/Coordinates.antt =====
-- util.rs: latitudes and longitudes as text.
pub mod Digits
pub mod Values
use nmea_parser.Common.{
  ℕ, suc, ◌+◌, Bool, true, false, ◌&&◌, not, Option, none, some, List, [], ◌∷◌, ◌==◌, if◌then◌else◌,
  take, drop, get_elem?, Outcome, ok, err, ◌>>=◌, or_panic, invalid_sentence,
}
use nmea_parser.Text.{Text, codes, eq_text, is_empty, is_digit, get_range}
use nmea_parser.Text.Bytes.{bytes}
use nmea_parser.Numbers.{F64}

unfoldable pub all_digits : List ℕ → Bool
all_digits [] = true
all_digits (c ∷ bs) = let rest = all_digits bs in if is_digit c then rest else false

-- `take_while(|c| c.is_ascii_digit()).count()`.
unfoldable pub count_digits : List ℕ → ℕ
count_digits [] = 0
count_digits (c ∷ bs) = let rest = count_digits bs in if is_digit c then suc rest else 0

abbrev is_point : Option ℕ → Bool
is_point none = false
is_point (some c) = c == b'.'

abbrev pub is_digit_byte : Option ℕ → Bool
is_digit_byte none = false
is_digit_byte (some c) = is_digit c

-- `n` digits, a decimal point, then a digit.
unfoldable pub is_degrees : ℕ → List ℕ → Bool
unfolding all_digits
is_degrees n byte_string =
    all_digits (take n byte_string)
    && is_point (get_elem? byte_string n)
    && is_digit_byte (get_elem? byte_string (suc n))

module _ {F : Type 0} (f64 : F64 F) where
  open f64 use {parse, literal, add, div, neg}

  -- `s.parse::<f64>().unwrap_or(0.0)`.
  abbrev pub parse_or_zero : Text → F
  parse_or_zero s = elim (parse s) [ none ↦ literal 0 0 | some x ↦ x ]

  -- The degrees of `whole` digits of `n`, and the minutes up to the last digit.
  unfoldable pub parse_degrees : ℕ → ℕ → Text → Outcome F
  unfolding count_digits
  parse_degrees whole n s = do
    d ← or_panic (get_range s 0 whole)
    m ← or_panic (get_range s whole (suc n + count_digits (drop (suc n) (bytes s))))
    ok (add (parse_or_zero d) (div (parse_or_zero m) (literal 60 0)))

  -- The value, negative in the southern or western hemisphere.
  abbrev pub signed_by : Text → Text → F → F
  signed_by negative hemisphere val = if eq_text hemisphere negative then neg val else val

  unfoldable pub parse_latitude_ddmm_mmm : Text → Text → Outcome (Option F)
  unfolding parse_degrees
  parse_latitude_ddmm_mmm lat_string hemisphere =
      if is_empty lat_string
      then ok none
      else if not (is_degrees 4 (bytes lat_string))
      then err invalid_sentence
      else (parse_degrees 2 4 lat_string >>= λ val.
          ok (some (signed_by (codes "S") hemisphere val)))

  unfoldable pub parse_longitude_dddmm_mmm : Text → Text → Outcome (Option F)
  unfolding parse_degrees
  parse_longitude_dddmm_mmm lon_string hemisphere =
      if is_empty lon_string
      then ok none
      else if not (is_degrees 5 (bytes lon_string))
      then err invalid_sentence
      else (parse_degrees 3 5 lon_string >>= λ val.
          ok (some (signed_by (codes "W") hemisphere val)))

  abbrev offset_of : Text → Text → Text → Option F → Outcome (Option F)
  offset_of positive negative hemisphere none = err invalid_sentence
  offset_of positive negative hemisphere (some x) =
      if eq_text hemisphere positive
      then ok (some (div x (literal 60 0)))
      else if eq_text hemisphere negative
      then ok (some (div (neg x) (literal 60 0)))
      else err invalid_sentence

  unfoldable pub parse_latitude_m_m : Text → Text → Outcome (Option F)
  parse_latitude_m_m lat_string hemisphere =
      if not (is_empty lat_string)
      then offset_of (codes "N") (codes "S") hemisphere (parse lat_string)
      else ok none

  unfoldable pub parse_longitude_m_m : Text → Text → Outcome (Option F)
  parse_longitude_m_m lon_string hemisphere =
      if not (is_empty lon_string)
      then offset_of (codes "E") (codes "W") hemisphere (parse lon_string)
      else ok none
