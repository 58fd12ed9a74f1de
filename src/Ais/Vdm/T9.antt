-- ===== src/Ais/Vdm/T9.antt =====
-- ais/vdm_t9.rs: type 9, standard SAR aircraft position report.
use nmea_parser.Common.{Bool, ◌==◌, Outcome, ok}
use nmea_parser.Bits.{Bits, pick_u64, pick_i64}
use nmea_parser.Numbers.{F64, as_i32}
use nmea_parser.Message.{ParsedMessage}
use nmea_parser.Ais.Types.{Station}
use nmea_parser.Ais.Fields.{flag, pick_u8, pick_u16, pick_u32, unless, coordinate, cog_tenths}

module _ {F T G : Type 0} (f64 : F64 F) where
  unfoldable pub handle : Bits → Station → Bool → Outcome (ParsedMessage F T G)
  handle bv station own_vessel = ok (
      ParsedMessage.standard_sar_aircraft_position_report (record {
        own_vessel = own_vessel;
        station = station;
        mmsi = pick_u32 bv 8 30;
        altitude = unless 4095 (pick_u16 bv 38 12);
        sog_knots = unless 1023 (pick_u16 bv 50 10);
        high_position_accuracy = flag bv 60;
        latitude = coordinate f64 600000 0x3412140 (as_i32 (pick_i64 bv 89 27));
        longitude = coordinate f64 600000 0x6791ac0 (as_i32 (pick_i64 bv 61 28));
        cog = cog_tenths f64 (pick_u64 bv 116 12);
        timestamp_seconds = pick_u8 bv 128 6;
        regional = pick_u8 bv 134 8;
        dte = pick_u64 bv 142 1 == 0;
        assigned = flag bv 146;
        raim_flag = flag bv 147;
        radio_status = pick_u32 bv 148 20;
      }))
