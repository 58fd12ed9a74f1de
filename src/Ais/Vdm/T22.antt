-- ===== src/Ais/Vdm/T22.antt =====
-- ais/vdm_t22.rs: type 22, channel management.
use nmea_parser.Common.{Bool, if◌then◌else◌, none, some, Outcome, ok}
use nmea_parser.Bits.{Bits, pick_i64}
use nmea_parser.Numbers.{F64}
use nmea_parser.Message.{ParsedMessage}
use nmea_parser.Ais.Types.{Station}
use nmea_parser.Ais.Fields.{flag, pick_u8, pick_u16, pick_u32, degrees}

module _ {F T G : Type 0} (f64 : F64 F) where
  unfoldable pub handle : Bits → Station → Bool → Outcome (ParsedMessage F T G)
  handle bv station own_vessel =
      let addressed = flag bv 139 in
      ok (
        ParsedMessage.channel_management (record {
          own_vessel = own_vessel;
          station = station;
          mmsi = pick_u32 bv 8 30;
          channel_a = pick_u16 bv 40 12;
          channel_b = pick_u16 bv 52 12;
          txrx = pick_u8 bv 64 4;
          power = flag bv 68;
          ne_lat = if addressed then none else some (degrees f64 600 (pick_i64 bv 87 17));
          ne_lon = if addressed then none else some (degrees f64 600 (pick_i64 bv 69 18));
          sw_lat = if addressed then none else some (degrees f64 600 (pick_i64 bv 122 17));
          sw_lon = if addressed then none else some (degrees f64 600 (pick_i64 bv 104 18));
          dest1_mmsi = if addressed then some (pick_u32 bv 69 30) else none;
          dest2_mmsi = if addressed then some (pick_u32 bv 104 30) else none;
          addressed = flag bv 139;
          channel_a_band = flag bv 140;
          channel_b_band = flag bv 141;
          zonesize = pick_u8 bv 142 3;
        }))
