-- ===== src/Ais/Vdm/T11.antt =====
-- ais/vdm_t11.rs: type 11, UTC and date response.
use nmea_parser.Common.{Bool, some, pos, Outcome, ok, ◌>>=◌}
use nmea_parser.Bits.{Bits, pick_u64, pick_i64}
use nmea_parser.Numbers.{F64, as_i32}
use nmea_parser.Chrono.{Chrono, parse_ymdhs}
use nmea_parser.Message.{ParsedMessage}
use nmea_parser.Ais.Types.{Station}
use nmea_parser.Ais.Fields.{flag, pick_u8, pick_u32, fix_type, coordinate}

module _ {F T G : Type 0} (f64 : F64 F) (chrono : Chrono T) where
  unfoldable pub handle : Bits → Station → Bool → Outcome (ParsedMessage F T G)
  handle bv station own_vessel = do
    timestamp ←
        parse_ymdhs chrono (as_i32 (pos (pick_u64 bv 38 14))) (pick_u32 bv 52 4) (pick_u32 bv 56 5)
          (pick_u32 bv 61 5) (pick_u32 bv 66 6) (pick_u32 bv 72 6)
    ok (
        ParsedMessage.utc_date_response (record {
          own_vessel = own_vessel;
          station = station;
          mmsi = pick_u32 bv 8 30;
          timestamp = some timestamp;
          high_position_accuracy = flag bv 78;
          latitude = coordinate f64 600000 0x3412140 (as_i32 (pick_i64 bv 107 27));
          longitude = coordinate f64 600000 0x6791ac0 (as_i32 (pick_i64 bv 79 28));
          position_fix_type = fix_type (pick_u8 bv 134 4);
          raim_flag = flag bv 148;
          radio_status = pick_u32 bv 149 19;
        }))
