-- ===== src/Ais/Vdm/T17.antt =====
-- ais/vdm_t17.rs: type 17, DGNSS broadcast binary message.
use nmea_parser.Common.{Bool, drop, Outcome, ok}
use nmea_parser.Bits.{Bits, pick_i64}
use nmea_parser.Numbers.{F64, as_i32}
use nmea_parser.Message.{ParsedMessage}
use nmea_parser.Ais.Types.{Station}
use nmea_parser.Ais.Fields.{pick_u32, coordinate}

module _ {F T G : Type 0} (f64 : F64 F) where
  unfoldable pub handle : Bits → Station → Bool → Outcome (ParsedMessage F T G)
  handle bv station own_vessel = ok (
      ParsedMessage.dgnss_broadcast_binary_message (record {
        own_vessel = own_vessel;
        station = station;
        mmsi = pick_u32 bv 8 30;
        latitude = coordinate f64 600 0xd548 (as_i32 (pick_i64 bv 58 17));
        longitude = coordinate f64 600 0x1a838 (as_i32 (pick_i64 bv 40 18));
        payload = drop 80 bv;
      }))
