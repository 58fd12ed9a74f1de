-- ===== src/Runs/Toys.antt =====
-- Concrete parameters for the runs.
use nmea_parser.Common.{
  ◌∷◌, ℕ, suc, ◌+◌, ◌-◌, ◌*◌, ◌/◌, ◌%◌, false, ◌&&◌, Option, none, some, [], ltb, leb,
  if◌then◌else◌, ℤ, pos, pos_part, neg_part, Outcome, ok, err, panic,
}
use nmea_parser.Text.{Text}
use nmea_parser.Bits.{Bits, parse_payload}
use nmea_parser.Numbers.{F64}
use nmea_parser.Gnss.Libraries.{Libraries}
use nmea_parser.Chrono.{Chrono}

-- A floating-point number is the expression that computes it.
pub data Float : Type 0 where
  integer : ℤ → Float
  decimal : ℕ → ℕ → Float
  sum product quotient : Float → Float → Float
  opposite : Float → Float
  literal : Text → Float
  power : Float → ℕ → Float

abbrev pub floats : F64 Float
floats = record {
  of_ℤ = Float.integer;
  literal = Float.decimal;
  add = Float.sum;
  mul = Float.product;
  div = Float.quotient;
  neg = Float.opposite;
  powi = Float.power;
  parse = λ t. some (Float.literal t);
  round_u32 = λ x. 0;
}

-- An `f32` is the text that it is read from, and a time zone its seconds; a hexadecimal number is
-- read as one digit.
abbrev hex_value : Text → Option ℕ
hex_value (c ∷ []) =
    if leb b'0' c && leb c b'9'
    then some (c - 48)
    else if leb b'A' c && leb c b'F'
    then some (c - 55)
    else none
hex_value _ = none

abbrev pub libraries : Libraries Text ℤ
libraries = record {
  parse_f32 = λ t. some t;
  from_str_radix = λ width t radix. hex_value t;
  east_opt = λ s. if ltb (pos_part s + neg_part s) 86400 then some s else none;
}

-- A time is a day number and a second, in years of twelve months of 31 days.
abbrev pub Time : Type 0
Time = ℕ × ℕ

abbrev moment : ℤ → ℕ → ℕ → ℕ → ℕ → ℕ → Option Time
moment y m d h min s =
    if leb 1 m && leb m 12 && leb 1 d && leb d 31 && ltb h 24 && ltb min 60 && ltb s 60
    then some ((pos_part y * 12 + (m - 1)) * 31 + (d - 1), (h * 60 + min) * 60 + s)
    else none

abbrev pub calendar : Chrono Time
calendar = record {
  ymd_and_hms_nano = λ y m d h min s nano. moment y m d h min s;
  with_ymd_and_hms = moment;
  year = λ t. pos (t.0 / 372);
  month = λ t. suc (t.0 / 31 % 12);
  day = λ t. suc (t.0 % 31);
  sub_days = λ t n. (t.0 - n, t.1);
  leb_time = λ t u. leb t.0 u.0;
}

abbrev bits_or_none : Outcome Bits → Bits
bits_or_none (ok bv) = bv
bits_or_none (err e) = []
bits_or_none panic = []

-- The bits of a payload.
abbrev pub payload_bits : Text → Bits
payload_bits t = bits_or_none (parse_payload false t)
