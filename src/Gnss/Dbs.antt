-- ===== src/Gnss/Dbs.antt =====
-- gnss/dbs.rs: depth below surface.
use nmea_parser.Common.{Outcome, ok, ◌>>=◌}
use nmea_parser.Text.{Text, split}
use nmea_parser.Numbers.{F64}
use nmea_parser.Gnss.Data.{GnssMessage}
use nmea_parser.Gnss.Fields.{pick_f64_field}

module _ {F S T Z : Type 0} (f64 : F64 F) where
  unfoldable pub handle : Text → Outcome (GnssMessage F S T Z)
  handle sentence = do
    let fields = split b',' sentence
    depth_meters ← pick_f64_field f64 fields 3
    depth_feet ← pick_f64_field f64 fields 1
    depth_fathoms ← pick_f64_field f64 fields 5
    ok (
        GnssMessage.dbs (record {
          depth_meters = depth_meters;
          depth_feet = depth_feet;
          depth_fathoms = depth_fathoms;
        }))
