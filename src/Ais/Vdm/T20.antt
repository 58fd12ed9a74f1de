-- ===== src/Ais/Vdm/T20.antt =====
-- ais/vdm_t20.rs: type 20, data link management.
use nmea_parser.Common.{Bool, Outcome, ok}
use nmea_parser.Bits.{Bits}
use nmea_parser.Message.{ParsedMessage}
use nmea_parser.Ais.Types.{Station}
use nmea_parser.Ais.Vdm.T15.{interrogation_case}
use nmea_parser.Ais.Fields.{pick_u8, pick_u16, pick_u32}

unfoldable pub handle : {F T G : Type 0} → Bits → Station → Bool → Outcome (ParsedMessage F T G)
handle bv station own_vessel = ok (
    ParsedMessage.data_link_management_message (record {
      own_vessel = own_vessel;
      station = station;
      case = interrogation_case bv;
      mmsi = pick_u32 bv 8 30;
      offset1 = pick_u16 bv 40 12;
      number1 = pick_u8 bv 52 4;
      timeout1 = pick_u8 bv 56 3;
      increment1 = pick_u8 bv 59 11;
      offset2 = pick_u16 bv 70 12;
      number2 = pick_u8 bv 82 4;
      timeout2 = pick_u8 bv 86 3;
      increment2 = pick_u8 bv 89 11;
      offset3 = pick_u16 bv 100 12;
      number3 = pick_u8 bv 112 4;
      timeout3 = pick_u8 bv 116 3;
      increment3 = pick_u8 bv 119 11;
      offset4 = pick_u16 bv 130 12;
      number4 = pick_u8 bv 142 4;
      timeout4 = pick_u8 bv 146 3;
      increment4 = pick_u8 bv 149 11;
    }))
