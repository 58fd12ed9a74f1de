-- ===== src/Gnss/Mwv.antt =====
-- gnss/mwv.rs: wind speed and angle.
use nmea_parser.Common.{
  Bool, true, false, Option, none, some, List, if◌then◌else◌, Outcome, ok, ◌>>=◌, ok_or,
  corrupted_sentence,
}
use nmea_parser.Text.{Text, split, codes, eq_text}
use nmea_parser.Numbers.{F64}
use nmea_parser.Gnss.Data.{GnssMessage}
use nmea_parser.Gnss.Fields.{pick_f64_field, pick_string_field}

unfoldable pub relative_of : Text → Option Bool
relative_of s =
    if eq_text s (codes "R") then some true else if eq_text s (codes "T") then some false else none

module _ {F : Type 0} (f64 : F64 F) where
  open f64 use {mul, literal}

  -- Field 3, which must be there, times a factor.
  unfoldable pub scaled : List Text → F → Outcome (Option F)
  scaled fields factor = do
    val ← pick_f64_field f64 fields 3
    x ← ok_or val corrupted_sentence
    ok (some (mul x factor))

  -- The speed by its unit: knots, metres per second or kilometres per hour.
  unfoldable pub speed_knots : List Text → Text → Outcome (Option F)
  unfolding scaled
  speed_knots fields unit =
      if eq_text unit (codes "N")
      then pick_f64_field f64 fields 3
      else if eq_text unit (codes "M")
      then scaled fields (literal 1943844 6)
      else if eq_text unit (codes "K")
      then scaled fields (literal 539957 6)
      else ok none

  unfoldable pub speed_kmh : List Text → Text → Outcome (Option F)
  unfolding scaled
  speed_kmh fields unit =
      if eq_text unit (codes "N")
      then scaled fields (literal 1852 3)
      else if eq_text unit (codes "M")
      then scaled fields (literal 36 1)
      else if eq_text unit (codes "K")
      then pick_f64_field f64 fields 3
      else ok none

module _ {F S T Z : Type 0} (f64 : F64 F) where
  unfoldable pub handle : Text → Outcome (GnssMessage F S T Z)
  handle sentence = do
    let fields = split b',' sentence
    wind_angle ← pick_f64_field f64 fields 1
    reference ← ok_or (pick_string_field fields 2) corrupted_sentence
    wind_speed_knots ←
        (ok_or (pick_string_field fields 4) corrupted_sentence >>= speed_knots f64 fields)
    wind_speed_kmh ←
        (ok_or (pick_string_field fields 4) corrupted_sentence >>= speed_kmh f64 fields)
    ok (
        GnssMessage.mwv (record {
          wind_angle = wind_angle;
          relative = relative_of reference;
          wind_speed_knots = wind_speed_knots;
          wind_speed_kmh = wind_speed_kmh;
        }))
