-- ===== src/Ais/Vdm/T21.antt =====
-- ais/vdm_t21.rs: type 21, aid to navigation report.
use nmea_parser.Common.{
  ℕ, Bool, ◌==◌, if◌then◌else◌, some, ◌++◌, Outcome, ok, err, panic, ◌>>=◌, invalid_sentence,
}
use nmea_parser.Bits.{Bits, pick_i64, pick_string}
use nmea_parser.Numbers.{F64, as_i32}
use nmea_parser.Message.{ParsedMessage}
use nmea_parser.Ais.Types.{Station}
use nmea_parser.Ais.Codes.{position_fix_type}
use nmea_parser.Ais.Messages.{NavAidType}
use nmea_parser.Ais.Fields.{flag, pick_u8, pick_u16, pick_u32, coordinate}

unfoldable pub nav_aid_type : ℕ → Outcome NavAidType
nav_aid_type raw =
    if raw == 0
    then ok NavAidType.not_specified
    else if raw == 1
    then ok NavAidType.reference_point
    else if raw == 2
    then ok NavAidType.racon
    else if raw == 3
    then ok NavAidType.fixed_structure
    else if raw == 4
    then ok NavAidType.reserved4
    else if raw == 5
    then ok NavAidType.light_without_sectors
    else if raw == 6
    then ok NavAidType.light_with_sectors
    else if raw == 7
    then ok NavAidType.leading_light_front
    else if raw == 8
    then ok NavAidType.leading_light_rear
    else if raw == 9
    then ok NavAidType.beacon_cardinal_north
    else if raw == 10
    then ok NavAidType.beacon_cardinal_east
    else if raw == 11
    then ok NavAidType.beacon_cardinal_south
    else if raw == 12
    then ok NavAidType.beacon_cardinal_west
    else if raw == 13
    then ok NavAidType.beacon_lateral_port
    else if raw == 14
    then ok NavAidType.beacon_lateral_starboard
    else if raw == 15
    then ok NavAidType.beacon_lateral_preferred_channel_port
    else if raw == 16
    then ok NavAidType.beacon_lateral_preferred_channel_starboard
    else if raw == 17
    then ok NavAidType.beacon_isolated_danger
    else if raw == 18
    then ok NavAidType.beacon_safe_water
    else if raw == 19
    then ok NavAidType.beacon_special_mark
    else if raw == 20
    then ok NavAidType.cardinal_mark_north
    else if raw == 21
    then ok NavAidType.cardinal_mark_east
    else if raw == 22
    then ok NavAidType.cardinal_mark_south
    else if raw == 23
    then ok NavAidType.cardinal_mark_west
    else if raw == 24
    then ok NavAidType.port_hand_mark
    else if raw == 25
    then ok NavAidType.starboard_hand_mark
    else if raw == 26
    then ok NavAidType.preferred_channel_port
    else if raw == 27
    then ok NavAidType.preferred_channel_starboard
    else if raw == 28
    then ok NavAidType.isolated_danger
    else if raw == 29
    then ok NavAidType.safe_water
    else if raw == 30
    then ok NavAidType.special_mark
    else if raw == 31
    then ok NavAidType.light_vessel
    else err invalid_sentence

-- `.ok().unwrap_or(NavAidType::NotSpecified)`.
abbrev pub or_not_specified : Outcome NavAidType → Outcome NavAidType
or_not_specified (ok t) = ok t
or_not_specified (err e) = ok NavAidType.not_specified
or_not_specified panic = panic

module _ {F T G : Type 0} (f64 : F64 F) where
  unfoldable pub handle : Bits → Station → Bool → Outcome (ParsedMessage F T G)
  handle bv station own_vessel = do
    aid_type ← or_not_specified (nav_aid_type (pick_u8 bv 38 5))
    front ← pick_string bv 43 20
    back ← pick_string bv 272 14
    ok (
        ParsedMessage.aid_to_navigation_report (record {
          own_vessel = own_vessel;
          station = station;
          mmsi = pick_u32 bv 8 30;
          aid_type = aid_type;
          name = front ++ back;
          high_position_accuracy = flag bv 163;
          latitude = coordinate f64 600000 0x3412140 (as_i32 (pick_i64 bv 192 27));
          longitude = coordinate f64 600000 0x6791ac0 (as_i32 (pick_i64 bv 164 28));
          dimension_to_bow = some (pick_u16 bv 219 9);
          dimension_to_stern = some (pick_u16 bv 228 9);
          dimension_to_port = some (pick_u16 bv 237 6);
          dimension_to_starboard = some (pick_u16 bv 243 6);
          position_fix_type = some (position_fix_type (pick_u8 bv 249 4));
          timestamp_seconds = pick_u8 bv 253 6;
          off_position_indicator = flag bv 243;
          regional = pick_u8 bv 260 8;
          raim_flag = flag bv 268;
          virtual_aid_flag = flag bv 269;
          assigned_mode_flag = flag bv 270;
        }))
