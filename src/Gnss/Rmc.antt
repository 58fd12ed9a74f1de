-- ===== src/Gnss/Rmc.antt =====
-- gnss/rmc.rs: recommended minimum specific GPS data.
pub mod Printed
use nmea_parser.Common.{
  Option, none, some, if◌then◌else◌, Outcome, ok, err, ◌>>=◌, invalid_sentence,
}
use nmea_parser.Text.{Text, split, codes, eq_text}
use nmea_parser.Numbers.{F64}
use nmea_parser.Chrono.{Chrono}
use nmea_parser.Parser.Talker.{NavigationSystem}
use nmea_parser.Gnss.Data.{GnssMessage}
use nmea_parser.Gnss.Fields.{pick_f64_field, field_or_empty, to_option}
use nmea_parser.Gnss.Codes.{rmc_status}
use nmea_parser.Gnss.Times.{parse_yymmdd_hhmmss}
use nmea_parser.Gnss.Coordinates.{parse_latitude_ddmm_mmm, parse_longitude_dddmm_mmm}

module _ {F : Type 0} (f64 : F64 F) where
  -- The magnetic variation, negative to the west.
  unfoldable pub variation_of : Text → Option F → Outcome (Option F)
  variation_of side none = ok none
  variation_of side (some val) =
      if eq_text side (codes "E")
      then ok (some val)
      else if eq_text side (codes "W")
      then ok (some (f64.neg val))
      else err invalid_sentence

module _ {F S T Z : Type 0} (f64 : F64 F) (chrono : Chrono T) where
  unfoldable pub handle : Text → NavigationSystem → Outcome (GnssMessage F S T Z)
  handle sentence nav_system = do
    let fields = split b',' sentence
    timestamp ←
        to_option (parse_yymmdd_hhmmss chrono (field_or_empty fields 9) (field_or_empty fields 1))
    status_active ← rmc_status (field_or_empty fields 2)
    latitude ← parse_latitude_ddmm_mmm f64 (field_or_empty fields 3) (field_or_empty fields 4)
    longitude ← parse_longitude_dddmm_mmm f64 (field_or_empty fields 5) (field_or_empty fields 6)
    sog_knots ← pick_f64_field f64 fields 7
    bearing ← pick_f64_field f64 fields 8
    val ← pick_f64_field f64 fields 10
    variation ← variation_of f64 (field_or_empty fields 11) val
    ok (
        GnssMessage.rmc (record {
          source = nav_system;
          timestamp = timestamp;
          status_active = status_active;
          latitude = latitude;
          longitude = longitude;
          sog_knots = sog_knots;
          bearing = bearing;
          variation = variation;
        }))
