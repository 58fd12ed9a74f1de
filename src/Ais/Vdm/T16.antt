-- ===== src/Ais/Vdm/T16.antt =====
-- ais/vdm_t16.rs: type 16, assignment mode command.
use nmea_parser.Common.{Bool, ltb, if◌then◌else◌, none, some, length, Outcome, ok}
use nmea_parser.Bits.{Bits}
use nmea_parser.Message.{ParsedMessage}
use nmea_parser.Ais.Types.{Station}
use nmea_parser.Ais.Fields.{pick_u16, pick_u32}

unfoldable pub handle : {F T G : Type 0} → Bits → Station → Bool → Outcome (ParsedMessage F T G)
handle bv station own_vessel =
    let single = ltb (length bv) 144 in
    ok (
      ParsedMessage.assignment_mode_command (record {
        own_vessel = own_vessel;
        station = station;
        assigned_for_single_station = single;
        mmsi = pick_u32 bv 8 30;
        mmsi1 = pick_u32 bv 40 30;
        offset1 = pick_u16 bv 70 12;
        increment1 = pick_u16 bv 82 10;
        mmsi2 = if single then none else some (pick_u32 bv 92 30);
        offset2 = if single then none else some (pick_u16 bv 122 12);
        increment2 = if single then none else some (pick_u16 bv 134 10);
      }))
