-- ===== src/Ais/Fields.antt =====
-- The blocks that the message handlers share: flags, casts, speeds, courses and coordinates.
use nmea_parser.Common.{
  ℕ, ◌%◌, ◌^◌, Bool, ◌&&◌, not, ◌==◌, ltb, if◌then◌else◌, Option, none, some, ℤ, pos, [], pos_part,
  neg_part,
}
use nmea_parser.Text.{Text}
use nmea_parser.Bits.{Bits, pick_u64}
use nmea_parser.Numbers.{F64}
use nmea_parser.Ais.Types.{PositionFixType}
use nmea_parser.Ais.Codes.{position_fix_type}

-- `pick_u64(bv, index, 1) != 0`.
abbrev pub flag : Bits → ℕ → Bool
flag bv index = not (pick_u64 bv index 1 == 0)

-- `pick_u64(bv, index, len) as u8`, `as u16` and `as u32`.
abbrev pub pick_u8 : Bits → ℕ → ℕ → ℕ
pick_u8 bv index len = pick_u64 bv index len % 2 ^ 8

abbrev pub pick_u16 : Bits → ℕ → ℕ → ℕ
pick_u16 bv index len = pick_u64 bv index len % 2 ^ 16

abbrev pub pick_u32 : Bits → ℕ → ℕ → ℕ
pick_u32 bv index len = pick_u64 bv index len % 2 ^ 32

abbrev pub eq_ℤ : ℤ → ℤ → Bool
eq_ℤ a b = pos_part a == pos_part b && neg_part a == neg_part b

-- A raw value, unless it is the one that stands for no value.
abbrev pub unless : ℕ → ℕ → Option ℕ
unless no_value raw = if raw == no_value then none else some raw

-- `match raw.as_str() { "" => None, _ => Some(raw) }`.
abbrev pub non_empty : Text → Option Text
non_empty [] = none
non_empty t = some t

abbrev pub fix_type : ℕ → Option PositionFixType
fix_type raw = if raw == 0 then none else some (position_fix_type raw)

module _ {F : Type 0} (f64 : F64 F) where
  open f64 use {of_ℤ, literal, mul, div}

  -- `raw as f64`, with a factor or a divisor from the source.
  unfoldable pub tenths : ℕ → F
  tenths raw = mul (of_ℤ (pos raw)) (literal 1 1)

  -- A coordinate in the given fraction of a degree, unless it has the value of no position.
  unfoldable pub degrees : ℕ → ℤ → F
  degrees fraction raw = div (of_ℤ raw) (literal fraction 0)

  unfoldable pub coordinate : ℕ → ℕ → ℤ → Option F
  unfolding degrees
  coordinate fraction no_value raw =
      if eq_ℤ raw (pos no_value) then none else some (degrees fraction raw)

  -- `sog_knots` of types 1 to 3, 18 and 19.
  unfoldable pub sog_tenths : ℕ → Option F
  unfolding tenths
  sog_tenths raw = if ltb raw 1023 then some (tenths raw) else none

  unfoldable pub cog_tenths : ℕ → Option F
  unfolding tenths
  cog_tenths raw = if raw == 0xe10 then none else some (tenths raw)

  unfoldable pub heading : ℕ → Option F
  heading raw = if raw == 511 then none else some (of_ℤ (pos raw))
