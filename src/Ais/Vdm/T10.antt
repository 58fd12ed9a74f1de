-- ===== src/Ais/Vdm/T10.antt =====
-- ais/vdm_t10.rs: type 10, UTC and date inquiry.
use nmea_parser.Common.{Bool, Outcome, ok}
use nmea_parser.Bits.{Bits}
use nmea_parser.Message.{ParsedMessage}
use nmea_parser.Ais.Types.{Station}
use nmea_parser.Ais.Fields.{pick_u32}

unfoldable pub handle : {F T G : Type 0} → Bits → Station → Bool → Outcome (ParsedMessage F T G)
handle bv station own_vessel = ok (
    ParsedMessage.utc_date_inquiry (record {
      own_vessel = own_vessel;
      station = station;
      source_mmsi = pick_u32 bv 8 30;
      destination_mmsi = pick_u32 bv 40 30;
    }))
