-- ===== src/Gnss/Stn.antt =====
-- gnss/stn.rs: talker number.
use nmea_parser.Common.{Outcome, ok, ◌>>=◌}
use nmea_parser.Text.{Text, split}
use nmea_parser.Parser.Talker.{NavigationSystem}
use nmea_parser.Gnss.Data.{GnssMessage}
use nmea_parser.Gnss.Fields.{pick_u8_field}

module _ {F S T Z : Type 0} where
  unfoldable pub handle : Text → NavigationSystem → Outcome (GnssMessage F S T Z)
  handle sentence nav_system = do
    let fields = split b',' sentence
    talker_id ← pick_u8_field fields 1
    ok (GnssMessage.stn (record { source = nav_system; talker_id = talker_id }))
