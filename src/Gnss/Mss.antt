-- ===== src/Gnss/Mss.antt =====
-- gnss/mss.rs: receiver signal.
use nmea_parser.Common.{Outcome, ok, ◌>>=◌}
use nmea_parser.Text.{Text, split}
use nmea_parser.Numbers.{F64}
use nmea_parser.Parser.Talker.{NavigationSystem}
use nmea_parser.Gnss.Data.{GnssMessage}
use nmea_parser.Gnss.Fields.{pick_u8_field, pick_u32_field, pick_f64_field}

module _ {F S T Z : Type 0} (f64 : F64 F) where
  unfoldable pub handle : Text → NavigationSystem → Outcome (GnssMessage F S T Z)
  handle sentence nav_system = do
    let fields = split b',' sentence
    ss ← pick_u8_field fields 1
    snr ← pick_u8_field fields 2
    frequency ← pick_f64_field f64 fields 3
    bit_rate ← pick_u32_field fields 4
    channel ← pick_u32_field fields 5
    ok (
        GnssMessage.mss (record {
          source = nav_system;
          ss = ss;
          snr = snr;
          frequency = frequency;
          bit_rate = bit_rate;
          channel = channel;
        }))
