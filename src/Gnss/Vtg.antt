-- ===== src/Gnss/Vtg.antt =====
-- gnss/vtg.rs: track made good and ground speed.
use nmea_parser.Common.{Outcome, ok, ◌>>=◌}
use nmea_parser.Text.{Text, split}
use nmea_parser.Numbers.{F64}
use nmea_parser.Parser.Talker.{NavigationSystem}
use nmea_parser.Gnss.Data.{GnssMessage}
use nmea_parser.Gnss.Fields.{pick_f64_field, field_or_empty, or_none, to_option}
use nmea_parser.Gnss.Codes.{faa_mode}

module _ {F S T Z : Type 0} (f64 : F64 F) where
  unfoldable pub handle : Text → NavigationSystem → Outcome (GnssMessage F S T Z)
  handle sentence nav_system = do
    let fields = split b',' sentence
    mode ← to_option (faa_mode (field_or_empty fields 9))
    ok (
        GnssMessage.vtg (record {
          source = nav_system;
          cog_true = or_none (pick_f64_field f64 fields 1);
          cog_magnetic = or_none (pick_f64_field f64 fields 3);
          sog_knots = or_none (pick_f64_field f64 fields 5);
          sog_kph = or_none (pick_f64_field f64 fields 7);
          faa_mode = mode;
        }))
