-- ===== src/Ais/Vdm/T15.antt =====
-- ais/vdm_t15.rs: type 15, interrogation.
use nmea_parser.Common.{
  Bool, true, false, ◌==◌, leb, if◌then◌else◌, none, some, length, Outcome, ok,
}
use nmea_parser.Bits.{Bits, pick_u64}
use nmea_parser.Message.{ParsedMessage}
use nmea_parser.Ais.Types.{Station}
use nmea_parser.Ais.Messages.{InterrogationCase, case1, case2, case3, case4}
use nmea_parser.Ais.Fields.{pick_u8, pick_u16, pick_u32}

-- `InterrogationCase::new`.
unfoldable pub interrogation_case : Bits → InterrogationCase
interrogation_case bv =
    let len = length bv in
    if leb 160 len
    then if pick_u64 bv 90 18 == 0 then case3 else case4
    else if leb 110 len
    then case2
    else case1

abbrev second_type : InterrogationCase → Bool
second_type case2 = true
second_type case4 = true
second_type _ = false

abbrev second_station : InterrogationCase → Bool
second_station case3 = true
second_station case4 = true
second_station _ = false

abbrev second_request : InterrogationCase → Bool
second_request case4 = true
second_request _ = false

unfoldable pub handle : {F T G : Type 0} → Bits → Station → Bool → Outcome (ParsedMessage F T G)
handle bv station own_vessel =
    let case = interrogation_case bv in
    ok (
      ParsedMessage.interrogation (record {
        own_vessel = own_vessel;
        station = station;
        case = case;
        mmsi = pick_u32 bv 8 30;
        mmsi1 = pick_u32 bv 40 30;
        type1_1 = pick_u8 bv 70 6;
        offset1_1 = pick_u16 bv 76 12;
        type1_2 = if second_type case then some (pick_u8 bv 90 6) else none;
        offset1_2 = if second_type case then some (pick_u16 bv 96 12) else none;
        mmsi2 = if second_station case then some (pick_u32 bv 110 30) else none;
        type2_1 = if second_request case then some (pick_u8 bv 140 6) else none;
        offset2_1 = if second_request case then some (pick_u16 bv 146 12) else none;
      }))
