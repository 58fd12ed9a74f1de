-- ===== src/Gnss/Vbw.antt =====
-- gnss/vbw.rs: ground and water speed.
use nmea_parser.Common.{Outcome, ok, ◌>>=◌}
use nmea_parser.Text.{Text, split}
use nmea_parser.Numbers.{F64}
use nmea_parser.Parser.Talker.{NavigationSystem}
use nmea_parser.Gnss.Data.{GnssMessage}
use nmea_parser.Gnss.Fields.{pick_f64_field, field_or_empty}
use nmea_parser.Gnss.Codes.{vbw_valid}

module _ {F S T Z : Type 0} (f64 : F64 F) where
  unfoldable pub handle : Text → NavigationSystem → Outcome (GnssMessage F S T Z)
  handle sentence nav_system = do
    let fields = split b',' sentence
    lon_water_speed_knots ← pick_f64_field f64 fields 1
    tr_water_speed_knots ← pick_f64_field f64 fields 2
    lon_ground_speed_knots ← pick_f64_field f64 fields 4
    tr_ground_speed_knots ← pick_f64_field f64 fields 5
    ok (
        GnssMessage.vbw (record {
          source = nav_system;
          lon_water_speed_knots = lon_water_speed_knots;
          tr_water_speed_knots = tr_water_speed_knots;
          water_speed_valid = vbw_valid (field_or_empty fields 3);
          lon_ground_speed_knots = lon_ground_speed_knots;
          tr_ground_speed_knots = tr_ground_speed_knots;
          ground_speed_valid = vbw_valid (field_or_empty fields 6);
        }))
