-- ===== src/Ais/Vdm/T1t2t3.antt =====
-- ais/vdm_t1t2t3.rs: types 1 to 3, position report with SOTDMA/ITDMA.
pub mod Layout
use nmea_parser.Common.{
  ℕ, zero, suc, ◌+◌, ◌-◌, ◌*◌, ◌/◌, ◌%◌, ◌^◌, Bool, true, false, ◌&&◌, ◌||◌, not, ◌==◌, ltb, leb,
  if◌then◌else◌, Option, none, some, List, [], ◌∷◌, ◌++◌, ℤ, pos, negsuc, neg_ℤ, ltb_ℤ, leb_ℤ,
  length, drop, Outcome, ok, err, panic, ◌>>=◌, ◌>>◌, or_panic, invalid_sentence,
}
use nmea_parser.Text.{Text, codes, eq_text}
use nmea_parser.Bits.{Bits, pick_u64, pick_i64, pick_string}
use nmea_parser.Numbers.{F64, as_i32}
use nmea_parser.Chrono.{Chrono, parse_ymdhs}
use nmea_parser.Message.{ParsedMessage}
use nmea_parser.Ais.Types.{
  Station, AisClass, NavigationStatus, PositioningSystemMeta, RotDirection, ShipType, CargoType,
  PositionFixType,
}
use nmea_parser.Ais.Codes.{navigation_status, ship_type, cargo_type, position_fix_type}
use nmea_parser.Ais.Data.{VesselDynamicData, VesselStaticData}
use nmea_parser.Ais.Fields.{
  flag, pick_u8, pick_u16, pick_u32, eq_ℤ, unless, non_empty, fix_type, tenths, degrees, coordinate,
  sog_tenths, cog_tenths, heading,
}

unfoldable pub rot_direction : ℤ → Option RotDirection
rot_direction raw =
    if eq_ℤ raw (negsuc 127)
    then none
    else if leb_ℤ raw (negsuc 1)
    then some RotDirection.port
    else if ltb_ℤ raw (pos 2)
    then some RotDirection.center
    else if ltb_ℤ raw (pos 128)
    then some RotDirection.starboard
    else none

unfoldable pub positioning_system_meta : ℕ → Option PositioningSystemMeta
positioning_system_meta sec_raw =
    if sec_raw == 60
    then none
    else if sec_raw == 61
    then some PositioningSystemMeta.manual_input_mode
    else if sec_raw == 62
    then some PositioningSystemMeta.dead_reckoning_mode
    else if sec_raw == 63
    then some PositioningSystemMeta.inoperative
    else some PositioningSystemMeta.operative

unfoldable pub special_manoeuvre : ℕ → Option Bool
special_manoeuvre raw =
    if raw == 0 then none else if raw == 1 then some true else if raw == 2 then some true else none

module _ {F : Type 0} (f64 : F64 F) where
  open f64 use {of_ℤ, literal, mul, div, neg, powi}

  -- The rate of turn of a magnitude, before its sign: the square of the sensor's reading.
  unfoldable pub rot_square : ℤ → F
  rot_square raw =
      powi (div (div (mul (of_ℤ raw) (literal 7080 1)) (literal 1260 1)) (literal 4733 3)) 2

  unfoldable pub rot : ℤ → Option F
  unfolding rot_square
  rot raw =
      if leb_ℤ (negsuc 125) raw && ltb_ℤ raw (pos 0)
      then some (neg (rot_square (neg_ℤ raw)))
      else if leb_ℤ (pos 0) raw && leb_ℤ raw (pos 126)
      then some (rot_square raw)
      else none

module _ {F T G : Type 0} (f64 : F64 F) where
  unfoldable pub handle : Bits → Station → Bool → Outcome (ParsedMessage F T G)
  handle bv station own_vessel = ok (
      ParsedMessage.vessel_dynamic_data (record {
        own_vessel = own_vessel;
        station = station;
        ais_type = AisClass.class_a;
        mmsi = pick_u32 bv 8 30;
        nav_status = navigation_status (pick_u8 bv 38 4);
        rot = rot f64 (pick_i64 bv 42 8);
        rot_direction = rot_direction (pick_i64 bv 42 8);
        sog_knots = sog_tenths f64 (pick_u64 bv 50 10);
        high_position_accuracy = flag bv 60;
        latitude = coordinate f64 600000 0x3412140 (as_i32 (pick_i64 bv 89 27));
        longitude = coordinate f64 600000 0x6791ac0 (as_i32 (pick_i64 bv 61 28));
        cog = cog_tenths f64 (pick_u64 bv 116 12);
        heading_true = heading f64 (pick_u64 bv 128 9);
        timestamp_seconds = pick_u8 bv 137 6;
        positioning_system_meta = positioning_system_meta (pick_u16 bv 137 6);
        current_gnss_position = none;
        special_manoeuvre = special_manoeuvre (pick_u64 bv 143 2);
        raim_flag = flag bv 148;
        class_b_unit_flag = none;
        class_b_display = none;
        class_b_dsc = none;
        class_b_band_flag = none;
        class_b_msg22_flag = none;
        class_b_mode_flag = none;
        class_b_css_flag = none;
        radio_status = some (pick_u32 bv 149 19);
      }))
