-- ===== src/Gnss/Gll.antt =====
-- gnss/gll.rs: geographic position and time.
use nmea_parser.Common.{Outcome, ok, ◌>>=◌}
use nmea_parser.Text.{Text, split}
use nmea_parser.Numbers.{F64}
use nmea_parser.Chrono.{Chrono}
use nmea_parser.Parser.Talker.{NavigationSystem}
use nmea_parser.Gnss.Data.{GnssMessage}
use nmea_parser.Gnss.Fields.{field_or_empty, to_option}
use nmea_parser.Gnss.Codes.{faa_mode, gll_valid}
use nmea_parser.Gnss.Times.{start_of_2000, parse_hhmmss}
use nmea_parser.Gnss.Coordinates.{parse_latitude_ddmm_mmm, parse_longitude_dddmm_mmm}

module _ {F S T Z : Type 0} (f64 : F64 F) (chrono : Chrono T) where
  unfoldable pub handle : Text → NavigationSystem → Outcome (GnssMessage F S T Z)
  handle sentence nav_system = do
    let fields = split b',' sentence
    now ← start_of_2000 chrono
    latitude ← parse_latitude_ddmm_mmm f64 (field_or_empty fields 1) (field_or_empty fields 2)
    longitude ← parse_longitude_dddmm_mmm f64 (field_or_empty fields 3) (field_or_empty fields 4)
    timestamp ← to_option (parse_hhmmss chrono (field_or_empty fields 5) now)
    mode ← to_option (faa_mode (field_or_empty fields 7))
    ok (
        GnssMessage.gll (record {
          source = nav_system;
          latitude = latitude;
          longitude = longitude;
          timestamp = timestamp;
          data_valid = gll_valid (field_or_empty fields 6);
          faa_mode = mode;
        }))
