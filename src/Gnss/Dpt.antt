-- ===== src/Gnss/Dpt.antt =====
-- gnss/dpt.rs: depth of water.
use nmea_parser.Common.{Outcome, ok, ◌>>=◌}
use nmea_parser.Text.{Text, split}
use nmea_parser.Numbers.{F64}
use nmea_parser.Gnss.Data.{GnssMessage}
use nmea_parser.Gnss.Fields.{pick_f64_field}

module _ {F S T Z : Type 0} (f64 : F64 F) where
  unfoldable pub handle : Text → Outcome (GnssMessage F S T Z)
  handle sentence = do
    let fields = split b',' sentence
    depth_relative_to_transducer ← pick_f64_field f64 fields 1
    transducer_offset ← pick_f64_field f64 fields 2
    ok (
        GnssMessage.dpt (record {
          depth_relative_to_transducer = depth_relative_to_transducer;
          transducer_offset = transducer_offset;
        }))
