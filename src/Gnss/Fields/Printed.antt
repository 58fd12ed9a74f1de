-- ===== src/Gnss/Fields/Printed.antt =====
-- The fields of a GNSS sentence that hold texts of numbers.
use nmea_parser.Common.{ℕ, ◌^◌, ◌<◌, ◌≡◌, refl, false, Option, some, List, [], ◌∷◌, ok, get_elem?}
use nmea_parser.Text.{Text, is_empty, show_u64, parse_unsigned}
use nmea_parser.Text.Decimal.{parse_unsigned-show_u64}
use nmea_parser.Gnss.Fields.{parsed_field, pick_number_field}

-- A field that holds the text of a number.
abbrev pub Reads : {A : Type 0} → (Text → Option A) → Text → A → Type 0
Reads parse s a = (is_empty s ≡ false) × (parse s ≡ some a)

parsed_field-Reads :
    {A : Type 0} (parse : Text → Option A) (s : Text) (a : A)
    → Reads parse s a
    → parsed_field parse s ≡ ok (some a)
parsed_field-Reads parse [] a h = absurd cc
parsed_field-Reads parse (c ∷ s) a h = rw (h.1)

pub pick_number_field-Reads :
    {A : Type 0} (parse : Text → Option A) (fields : List Text) (num : ℕ) (s : Text) (a : A)
    → get_elem? fields num ≡ some s
    → Reads parse s a
    → pick_number_field parse fields num ≡ ok (some a)
unfolding pick_number_field
pick_number_field-Reads parse fields num s a e h =
    rw (pick_number_field, e, parsed_field-Reads parse s a h)

pub show_u64-Reads : (m n : ℕ) → n < 10 ^ 20 → n < m → Reads (parse_unsigned m) (show_u64 n) n
unfolding parse_unsigned
show_u64-Reads m n h k =
    (full (show_u64 n) (parse_unsigned-show_u64 m n h k), parse_unsigned-show_u64 m n h k)
  where
    full : (t : Text) → parse_unsigned m t ≡ some n → is_empty t ≡ false
    full [] e = absurd cc
    full (c ∷ t) e = refl
