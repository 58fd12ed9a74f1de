-- ===== src/Ais/Vdm/T23.antt =====
-- ais/vdm_t23.rs: type 23, group assignment command.
use nmea_parser.Common.{
  ℕ, Bool, ◌==◌, ltb, if◌then◌else◌, Option, none, some, Outcome, ok, err, panic, ◌>>=◌,
  invalid_sentence,
}
use nmea_parser.Bits.{Bits, pick_i64}
use nmea_parser.Numbers.{F64}
use nmea_parser.Message.{ParsedMessage}
use nmea_parser.Ais.Types.{Station}
use nmea_parser.Ais.Codes.{ship_type, cargo_type}
use nmea_parser.Ais.Messages.{StationType, StationInterval}
use nmea_parser.Ais.Fields.{pick_u8, pick_u32, degrees}

unfoldable pub station_type : ℕ → Outcome StationType
station_type raw =
    if raw == 0
    then ok StationType.all_types
    else if raw == 1
    then ok StationType.reserved1
    else if raw == 2
    then ok StationType.all_types_of_class_b_mobile
    else if raw == 3
    then ok StationType.sar_airborne_mobile
    else if raw == 4
    then ok StationType.aid_to_navigation
    else if raw == 5
    then ok StationType.class_b_ship_borne_mobile
    else if raw == 6
    then ok StationType.regional6
    else if raw == 7
    then ok StationType.regional7
    else if raw == 8
    then ok StationType.regional8
    else if raw == 9
    then ok StationType.regional9
    else if raw == 10
    then ok StationType.reserved10
    else if raw == 11
    then ok StationType.reserved11
    else if raw == 12
    then ok StationType.reserved12
    else if raw == 13
    then ok StationType.reserved13
    else if raw == 14
    then ok StationType.reserved14
    else if raw == 15
    then ok StationType.reserved15
    else err invalid_sentence

unfoldable pub station_interval : ℕ → Outcome StationInterval
station_interval raw =
    if raw == 0
    then ok StationInterval.autonomous
    else if raw == 1
    then ok StationInterval.time10min
    else if raw == 2
    then ok StationInterval.time6min
    else if raw == 3
    then ok StationInterval.time3min
    else if raw == 4
    then ok StationInterval.time1min
    else if raw == 5
    then ok StationInterval.time30sec
    else if raw == 6
    then ok StationInterval.time15sec
    else if raw == 7
    then ok StationInterval.time10sec
    else if raw == 8
    then ok StationInterval.time5sec
    else if raw == 9
    then ok StationInterval.next_shorter_reporting_inverval
    else if raw == 10
    then ok StationInterval.next_longer_reporting_inverval
    else if raw == 11
    then ok StationInterval.reserved11
    else if raw == 12
    then ok StationInterval.reserved12
    else if raw == 13
    then ok StationInterval.reserved13
    else if raw == 14
    then ok StationInterval.reserved14
    else if raw == 15
    then ok StationInterval.reserved15
    else err invalid_sentence

abbrev pub txrx_mode : ℕ → Outcome ℕ
txrx_mode val = if ltb val 4 then ok val else err invalid_sentence

-- Only four bits are picked; `unreachable!` is a panic.
abbrev pub quiet_time : ℕ → Outcome (Option ℕ)
quiet_time val = if val == 0 then ok none else if ltb val 16 then ok (some val) else panic

module _ {F T G : Type 0} (f64 : F64 F) where
  unfoldable pub handle : Bits → Station → Bool → Outcome (ParsedMessage F T G)
  handle bv station own_vessel = do
    station_type ← station_type (pick_u8 bv 110 4)
    txrx ← txrx_mode (pick_u8 bv 144 2)
    interval ← station_interval (pick_u8 bv 146 4)
    quiet ← quiet_time (pick_u8 bv 150 4)
    ok (
        ParsedMessage.group_assignment_command (record {
          own_vessel = own_vessel;
          station = station;
          mmsi = pick_u32 bv 8 30;
          ne_lat = some (degrees f64 600 (pick_i64 bv 58 17));
          ne_lon = some (degrees f64 600 (pick_i64 bv 40 18));
          sw_lat = some (degrees f64 600 (pick_i64 bv 93 17));
          sw_lon = some (degrees f64 600 (pick_i64 bv 75 18));
          station_type = station_type;
          ship_type = ship_type (pick_u8 bv 114 8);
          cargo_type = cargo_type (pick_u8 bv 114 8);
          txrx = txrx;
          interval = interval;
          quiet = quiet;
        }))
