-- ===== src/Ais/Vdm/T6.antt =====
-- ais/vdm_t6.rs: type 6, addressed binary message.
use nmea_parser.Common.{Bool, Outcome, ok}
use nmea_parser.Bits.{Bits}
use nmea_parser.Message.{ParsedMessage}
use nmea_parser.Ais.Types.{Station}
use nmea_parser.Ais.Fields.{flag, pick_u8, pick_u16, pick_u32}

unfoldable pub handle : {F T G : Type 0} → Bits → Station → Bool → Outcome (ParsedMessage F T G)
handle bv station own_vessel = ok (
    ParsedMessage.binary_addressed_message (record {
      own_vessel = own_vessel;
      station = station;
      mmsi = pick_u32 bv 8 30;
      sequence_number = pick_u8 bv 38 2;
      destination_mmsi = pick_u32 bv 40 30;
      retransmit_flag = flag bv 70;
      dac = pick_u16 bv 72 10;
      fid = pick_u8 bv 82 6;
    }))
