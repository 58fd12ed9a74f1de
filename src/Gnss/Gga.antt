-- ===== src/Gnss/Gga.antt =====
-- gnss/gga.rs: global positioning system fix data.
pub mod Printed
use nmea_parser.Common.{ℕ, Option, none, some, Outcome, ok, ◌>>=◌}
use nmea_parser.Text.{Text, split}
use nmea_parser.Numbers.{F64}
use nmea_parser.Chrono.{Chrono}
use nmea_parser.Parser.Talker.{NavigationSystem}
use nmea_parser.Gnss.Data.{GnssMessage}
use nmea_parser.Gnss.Fields.{
  pick_u8_field, pick_u16_field, pick_f64_field, field_or_empty, to_option,
}
use nmea_parser.Gnss.Codes.{gga_quality}
use nmea_parser.Gnss.Times.{start_of_2000, parse_hhmmss}
use nmea_parser.Gnss.Coordinates.{parse_latitude_ddmm_mmm, parse_longitude_dddmm_mmm}

abbrev pub or_zero : Option ℕ → ℕ
or_zero none = 0
or_zero (some n) = n

module _ {F S T Z : Type 0} (f64 : F64 F) (chrono : Chrono T) where
  unfoldable pub handle : Text → NavigationSystem → Outcome (GnssMessage F S T Z)
  handle sentence nav_system = do
    let fields = split b',' sentence
    now ← start_of_2000 chrono
    timestamp ← to_option (parse_hhmmss chrono (field_or_empty fields 1) now)
    latitude ← parse_latitude_ddmm_mmm f64 (field_or_empty fields 2) (field_or_empty fields 3)
    longitude ← parse_longitude_dddmm_mmm f64 (field_or_empty fields 4) (field_or_empty fields 5)
    quality ← pick_u8_field fields 6
    satellite_count ← pick_u8_field fields 7
    hdop ← pick_f64_field f64 fields 8
    altitude ← pick_f64_field f64 fields 9
    geoid_separation ← pick_f64_field f64 fields 11
    age_of_dgps ← pick_f64_field f64 fields 13
    ref_station_id ← pick_u16_field fields 14
    ok (
        GnssMessage.gga (record {
          source = nav_system;
          timestamp = timestamp;
          latitude = latitude;
          longitude = longitude;
          quality = gga_quality (or_zero quality);
          satellite_count = satellite_count;
          hdop = hdop;
          altitude = altitude;
          geoid_separation = geoid_separation;
          age_of_dgps = age_of_dgps;
          ref_station_id = ref_station_id;
        }))
