-- ===== src/Ais/Vdm/T13.antt =====
-- ais/vdm_t13.rs: type 13, safety related acknowledgement.
use nmea_parser.Common.{Bool, Outcome, ok}
use nmea_parser.Bits.{Bits}
use nmea_parser.Message.{ParsedMessage}
use nmea_parser.Ais.Types.{Station}
use nmea_parser.Ais.Fields.{pick_u8, pick_u32}

unfoldable pub handle : {F T G : Type 0} → Bits → Station → Bool → Outcome (ParsedMessage F T G)
handle bv station own_vessel = ok (
    ParsedMessage.safety_related_acknowledgement (record {
      own_vessel = own_vessel;
      station = station;
      mmsi = pick_u32 bv 8 30;
      mmsi1 = pick_u32 bv 40 30;
      mmsi1_seq = pick_u8 bv 70 2;
      mmsi2 = pick_u32 bv 72 30;
      mmsi2_seq = pick_u8 bv 102 2;
      mmsi3 = pick_u32 bv 104 30;
      mmsi3_seq = pick_u8 bv 134 2;
      mmsi4 = pick_u32 bv 136 30;
      mmsi4_seq = pick_u8 bv 166 2;
    }))
