-- ===== src/Gnss/Hdt.antt =====
-- gnss/hdt.rs: true heading.
use nmea_parser.Common.{Outcome, ok, ◌>>=◌}
use nmea_parser.Text.{Text, split}
use nmea_parser.Numbers.{F64}
use nmea_parser.Gnss.Data.{GnssMessage}
use nmea_parser.Gnss.Fields.{pick_f64_field}

module _ {F S T Z : Type 0} (f64 : F64 F) where
  unfoldable pub handle : Text → Outcome (GnssMessage F S T Z)
  handle sentence = do
    let fields = split b',' sentence
    heading_true ← pick_f64_field f64 fields 1
    ok (GnssMessage.hdt (record { heading_true = heading_true }))
