-- ===== src/Ais/Vdm/T27.antt =====
-- ais/vdm_t27.rs: type 27, long range AIS broadcast message.
pub mod Overlap
use nmea_parser.Common.{
  ℕ, zero, suc, ◌+◌, ◌-◌, ◌*◌, ◌/◌, ◌%◌, ◌^◌, Bool, true, false, ◌&&◌, ◌||◌, not, ◌==◌, ltb, leb,
  if◌then◌else◌, Option, none, some, List, [], ◌∷◌, ◌++◌, ℤ, pos, negsuc, neg_ℤ, ltb_ℤ, leb_ℤ,
  length, drop, Outcome, ok, err, panic, ◌>>=◌, ◌>>◌, or_panic, invalid_sentence,
}
use nmea_parser.Text.{Text, codes, eq_text}
use nmea_parser.Bits.{Bits, pick_u64, pick_i64, pick_string}
use nmea_parser.Numbers.{F64, as_i32}
use nmea_parser.Chrono.{Chrono, parse_ymdhs}
use nmea_parser.Message.{ParsedMessage}
use nmea_parser.Ais.Types.{
  Station, AisClass, NavigationStatus, PositioningSystemMeta, RotDirection, ShipType, CargoType,
  PositionFixType,
}
use nmea_parser.Ais.Codes.{navigation_status, ship_type, cargo_type, position_fix_type}
use nmea_parser.Ais.Data.{VesselDynamicData, VesselStaticData}
use nmea_parser.Ais.Fields.{
  flag, pick_u8, pick_u16, pick_u32, eq_ℤ, unless, non_empty, fix_type, tenths, degrees, coordinate,
  sog_tenths, cog_tenths, heading,
}

module _ {F : Type 0} (f64 : F64 F) where
  open f64 use {of_ℤ}

  -- The structure that `handle` builds.
  unfoldable pub report : Bits → Station → Bool → VesselDynamicData F
  report bv station own_vessel = record {
    own_vessel = own_vessel;
    station = station;
    ais_type = AisClass.class_a;
    mmsi = pick_u32 bv 8 30;
    nav_status = navigation_status (pick_u8 bv 40 4);
    rot = none;
    rot_direction = none;
    sog_knots = if pick_u64 bv 62 6 == 63 then none else some (of_ℤ (pos (pick_u64 bv 62 6)));
    high_position_accuracy = flag bv 38;
    latitude = coordinate f64 600 181000 (as_i32 (pick_i64 bv 62 17));
    longitude = coordinate f64 600 181000 (as_i32 (pick_i64 bv 44 18));
    cog = if pick_u64 bv 62 17 == 91000 then none else some (tenths f64 (pick_u64 bv 62 17));
    heading_true = none;
    timestamp_seconds = 0;
    positioning_system_meta = none;
    current_gnss_position = some (pick_u64 bv 62 1 == 0);
    special_manoeuvre = none;
    raim_flag = flag bv 39;
    class_b_unit_flag = none;
    class_b_display = none;
    class_b_dsc = none;
    class_b_band_flag = none;
    class_b_msg22_flag = none;
    class_b_mode_flag = none;
    class_b_css_flag = none;
    radio_status = none;
  }

module _ {F T G : Type 0} (f64 : F64 F) where
  unfoldable pub handle : Bits → Station → Bool → Outcome (ParsedMessage F T G)
  unfolding report
  handle bv station own_vessel =
      ok (ParsedMessage.vessel_dynamic_data (report f64 bv station own_vessel))
