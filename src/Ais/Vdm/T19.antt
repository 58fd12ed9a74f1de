-- ===== src/Ais/Vdm/T19.antt =====
-- ais/vdm_t19.rs: type 19, extended class B equipment position report.
use nmea_parser.Common.{Bool, none, Outcome, ok}
use nmea_parser.Bits.{Bits, pick_u64, pick_i64}
use nmea_parser.Numbers.{F64, as_i32}
use nmea_parser.Message.{ParsedMessage}
use nmea_parser.Ais.Types.{Station, AisClass, NavigationStatus}
use nmea_parser.Ais.Fields.{flag, pick_u8, pick_u32, coordinate, sog_tenths, cog_tenths, heading}

module _ {F T G : Type 0} (f64 : F64 F) where
  unfoldable pub handle : Bits → Station → Bool → Outcome (ParsedMessage F T G)
  handle bv station own_vessel = ok (
      ParsedMessage.vessel_dynamic_data (record {
        own_vessel = own_vessel;
        station = station;
        ais_type = AisClass.class_b;
        mmsi = pick_u32 bv 8 30;
        nav_status = NavigationStatus.not_defined;
        rot = none;
        rot_direction = none;
        sog_knots = sog_tenths f64 (pick_u64 bv 46 10);
        high_position_accuracy = flag bv 56;
        latitude = coordinate f64 600000 0x3412140 (as_i32 (pick_i64 bv 85 27));
        longitude = coordinate f64 600000 0x6791ac0 (as_i32 (pick_i64 bv 57 28));
        cog = cog_tenths f64 (pick_u64 bv 112 12);
        heading_true = heading f64 (pick_u64 bv 124 9);
        timestamp_seconds = pick_u8 bv 133 6;
        positioning_system_meta = none;
        current_gnss_position = none;
        special_manoeuvre = none;
        raim_flag = flag bv 305;
        class_b_unit_flag = none;
        class_b_display = none;
        class_b_dsc = none;
        class_b_band_flag = none;
        class_b_msg22_flag = none;
        class_b_mode_flag = none;
        class_b_css_flag = none;
        radio_status = none;
      }))
