-- ===== src/Ais/Vdm/T12.antt =====
-- ais/vdm_t12.rs: type 12, addressed safety related message.
use nmea_parser.Common.{Bool, Outcome, ok, ◌>>=◌}
use nmea_parser.Bits.{Bits, pick_string}
use nmea_parser.Message.{ParsedMessage}
use nmea_parser.Ais.Types.{Station}
use nmea_parser.Ais.Fields.{flag, pick_u8, pick_u32}

unfoldable pub handle : {F T G : Type 0} → Bits → Station → Bool → Outcome (ParsedMessage F T G)
handle bv station own_vessel = do
  text ← pick_string bv 72 156
  ok (
      ParsedMessage.addressed_safety_related_message (record {
        own_vessel = own_vessel;
        station = station;
        source_mmsi = pick_u32 bv 8 30;
        sequence_number = pick_u8 bv 38 2;
        destination_mmsi = pick_u32 bv 40 30;
        retransmit_flag = flag bv 70;
        text = text;
      }))
