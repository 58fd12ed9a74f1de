-- ===== src/Ais/Vdm/T14.antt =====
-- ais/vdm_t14.rs: type 14, safety related broadcast message.
use nmea_parser.Common.{Bool, Outcome, ok, ◌>>=◌}
use nmea_parser.Bits.{Bits, pick_string}
use nmea_parser.Message.{ParsedMessage}
use nmea_parser.Ais.Types.{Station}
use nmea_parser.Ais.Fields.{pick_u32}

unfoldable pub handle : {F T G : Type 0} → Bits → Station → Bool → Outcome (ParsedMessage F T G)
handle bv station own_vessel = do
  text ← pick_string bv 40 161
  ok (
      ParsedMessage.safety_related_broadcast_message (record {
        own_vessel = own_vessel;
        station = station;
        mmsi = pick_u32 bv 8 30;
        text = text;
      }))
