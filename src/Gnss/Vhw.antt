-- ===== src/Gnss/Vhw.antt =====
-- gnss/vhw.rs: water speed and heading.
use nmea_parser.Common.{Outcome, ok, ◌>>=◌}
use nmea_parser.Text.{Text, split}
use nmea_parser.Numbers.{F64}
use nmea_parser.Gnss.Data.{GnssMessage}
use nmea_parser.Gnss.Fields.{pick_f64_field}

module _ {F S T Z : Type 0} (f64 : F64 F) where
  unfoldable pub handle : Text → Outcome (GnssMessage F S T Z)
  handle sentence = do
    let fields = split b',' sentence
    heading_true ← pick_f64_field f64 fields 1
    heading_magnetic ← pick_f64_field f64 fields 3
    speed_through_water_knots ← pick_f64_field f64 fields 5
    speed_through_water_kmh ← pick_f64_field f64 fields 7
    ok (
        GnssMessage.vhw (record {
          heading_true = heading_true;
          heading_magnetic = heading_magnetic;
          speed_through_water_knots = speed_through_water_knots;
          speed_through_water_kmh = speed_through_water_kmh;
        }))
