-- ===== src/Gnss/Zda.antt =====
-- gnss/zda.rs: time and date.
use nmea_parser.Common.{Bool, Outcome, ok, ◌>>=◌}
use nmea_parser.Text.{Text, split}
use nmea_parser.Numbers.{F64}
use nmea_parser.Chrono.{Chrono}
use nmea_parser.Parser.Talker.{NavigationSystem}
use nmea_parser.Gnss.Libraries.{Libraries}
use nmea_parser.Gnss.Data.{GnssMessage}
use nmea_parser.Gnss.Fields.{field_or_empty, to_option}
use nmea_parser.Gnss.Times.{parse_hhmmss_ss, pick_date_with_fields, pick_timezone_with_fields}

module _ {F S T Z : Type 0} (f64 : F64 F) (chrono : Chrono T) (libs : Libraries S Z)
    (overflow_checks : Bool) where
  unfoldable pub handle : Text → NavigationSystem → Outcome (GnssMessage F S T Z)
  handle sentence nav_system = do
    let fields = split b',' sentence
    date ← pick_date_with_fields chrono fields 4 3 2 0 0 0 0
    timestamp_utc ← to_option (parse_hhmmss_ss f64 chrono (field_or_empty fields 1) date)
    timezone_local ← to_option (pick_timezone_with_fields libs overflow_checks fields 5 6)
    ok (
        GnssMessage.zda (record {
          source = nav_system;
          timestamp_utc = timestamp_utc;
          timezone_local = timezone_local;
        }))
