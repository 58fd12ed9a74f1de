-- ===== src/Ais/Vdm/T18.antt =====
-- ais/vdm_t18.rs: type 18, standard class B CS position report.
pub mod Layout
use nmea_parser.Common.{
  ℕ, zero, suc, ◌+◌, ◌-◌, ◌*◌, ◌/◌, ◌%◌, ◌^◌, Bool, true, false, ◌&&◌, ◌||◌, not, ◌==◌, ltb, leb,
  if◌then◌else◌, Option, none, some, List, [], ◌∷◌, ◌++◌, ℤ, pos, negsuc, neg_ℤ, ltb_ℤ, leb_ℤ,
  length, drop, Outcome, ok, err, panic, ◌>>=◌, ◌>>◌, or_panic, invalid_sentence,
}
use nmea_parser.Text.{Text, codes, eq_text}
use nmea_parser.Bits.{Bits, pick_u64, pick_i64, pick_string}
use nmea_parser.Numbers.{F64, as_i32}
use nmea_parser.Chrono.{Chrono, parse_ymdhs}
use nmea_parser.Message.{ParsedMessage}
use nmea_parser.Ais.Types.{
  Station, AisClass, NavigationStatus, PositioningSystemMeta, RotDirection, ShipType, CargoType,
  PositionFixType,
}
use nmea_parser.Ais.Codes.{navigation_status, ship_type, cargo_type, position_fix_type}
use nmea_parser.Ais.Data.{VesselDynamicData, VesselStaticData}
use nmea_parser.Ais.Fields.{
  flag, pick_u8, pick_u16, pick_u32, eq_ℤ, unless, non_empty, fix_type, tenths, degrees, coordinate,
  sog_tenths, cog_tenths, heading,
}

module _ {F : Type 0} (f64 : F64 F) where
  -- The structure that `handle` builds.
  unfoldable pub report : Bits → Station → Bool → VesselDynamicData F
  report bv station own_vessel = record {
    own_vessel = own_vessel;
    station = station;
    ais_type = AisClass.class_b;
    mmsi = pick_u32 bv 8 30;
    nav_status = NavigationStatus.not_defined;
    rot = none;
    rot_direction = none;
    sog_knots = sog_tenths f64 (pick_u64 bv 46 10);
    high_position_accuracy = flag bv 56;
    latitude = coordinate f64 600000 0x3412140 (as_i32 (pick_i64 bv 85 27));
    longitude = coordinate f64 600000 0x6791ac0 (as_i32 (pick_i64 bv 57 28));
    cog = cog_tenths f64 (pick_u64 bv 112 12);
    heading_true = heading f64 (pick_u64 bv 124 9);
    timestamp_seconds = pick_u8 bv 133 6;
    positioning_system_meta = none;
    current_gnss_position = none;
    special_manoeuvre = none;
    raim_flag = flag bv 141;
    class_b_unit_flag = none;
    class_b_display = some (flag bv 141);
    class_b_dsc = some (flag bv 142);
    class_b_band_flag = some (flag bv 143);
    class_b_msg22_flag = some (flag bv 144);
    class_b_mode_flag = some (flag bv 145);
    class_b_css_flag = none;
    radio_status = some (pick_u32 bv 149 19);
  }

module _ {F T G : Type 0} (f64 : F64 F) where
  unfoldable pub handle : Bits → Station → Bool → Outcome (ParsedMessage F T G)
  unfolding report
  handle bv station own_vessel =
      ok (ParsedMessage.vessel_dynamic_data (report f64 bv station own_vessel))
