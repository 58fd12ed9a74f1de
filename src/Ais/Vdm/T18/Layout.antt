-- ===== src/Ais/Vdm/T18/Layout.antt =====
-- Type 18 against the layout of the message in ITU-R M.1371: the unit flag stands at bit 141, then
-- the display, DSC, band, message 22 and mode flags and, at bit 147, the RAIM flag.
use nmea_parser.Common.{ℕ, ◌%◌, ◌^◌, ◌<◌, ◌≡◌, refl, Bool, none, some, [], ◌∷◌, not, ◌==◌, arith, ℤ}
use nmea_parser.Bits.Signed.{complement, Fits}
use nmea_parser.Bits.Layout.{Fields, encode, pick_nth, pick_signed_nth}
use nmea_parser.Numbers.{F64, as_i32, as_i32_lem}
use nmea_parser.Ais.Types.{Station, AisClass, NavigationStatus}
use nmea_parser.Ais.Fields.{coordinate, sog_tenths, cog_tenths, heading}
use nmea_parser.Ais.Vdm.T18.{report}

-- A class B position report as the standard's raw fields.
pub record ClassBReport : Type 0 where
  pub kind : ℕ
  pub repeat : ℕ
  pub user : ℕ
  pub reserved : ℕ
  pub speed : ℕ
  pub accuracy : ℕ
  pub lon : ℤ
  pub lat : ℤ
  pub course : ℕ
  pub true_heading : ℕ
  pub second : ℕ
  pub reserved_2 : ℕ
  pub unit : ℕ
  pub display : ℕ
  pub dsc : ℕ
  pub band : ℕ
  pub msg22 : ℕ
  pub mode : ℕ
  pub raim : ℕ
  pub selector : ℕ
  pub radio : ℕ

abbrev pub layout : ClassBReport → Fields
layout r =
    (6, r.kind)
    ∷ (2, r.repeat)
    ∷ (30, r.user)
    ∷ (8, r.reserved)
    ∷ (10, r.speed)
    ∷ (1, r.accuracy)
    ∷ (28, complement 28 r.lon)
    ∷ (27, complement 27 r.lat)
    ∷ (12, r.course)
    ∷ (9, r.true_heading)
    ∷ (6, r.second)
    ∷ (2, r.reserved_2)
    ∷ (1, r.unit)
    ∷ (1, r.display)
    ∷ (1, r.dsc)
    ∷ (1, r.band)
    ∷ (1, r.msg22)
    ∷ (1, r.mode)
    ∷ (1, r.raim)
    ∷ (1, r.selector)
    ∷ (19, r.radio)
    ∷ []

-- Each raw field that the handler reads fits its width.
pub record InRange (r : ClassBReport) : Type 0 where
  pub user_fits : r.user < 2 ^ 30
  pub speed_fits : r.speed < 2 ^ 10
  pub accuracy_fits : r.accuracy < 2 ^ 1
  pub lon_fits : Fits 28 r.lon
  pub lat_fits : Fits 27 r.lat
  pub course_fits : r.course < 2 ^ 12
  pub true_heading_fits : r.true_heading < 2 ^ 9
  pub second_fits : r.second < 2 ^ 6
  pub unit_fits : r.unit < 2 ^ 1
  pub display_fits : r.display < 2 ^ 1
  pub dsc_fits : r.dsc < 2 ^ 1
  pub band_fits : r.band < 2 ^ 1
  pub msg22_fits : r.msg22 < 2 ^ 1
  pub radio_fits : r.radio < 2 ^ 19

narrow : (v m : ℕ) → v < m → v % m ≡ v
narrow v m h = grind arith

module _ {F : Type 0} (f64 : F64 F) (r : ClassBReport) (v : InRange r) where
  -- From the bits that the standard prescribes, of raw fields that fit their widths, the handler
  -- reads back the MMSI, the speed, the
  -- position, the course, the heading, the second and the radio status; but it gives the unit flag
  -- as the RAIM flag and as the display flag, the display flag as the DSC flag, the DSC flag as the
  -- band flag, the band flag as the message 22 flag and the message 22 flag as the mode flag.
  pub report-encode :
      (station : Station) (own_vessel : Bool)
      → report f64 (encode (layout r)) station own_vessel ≡ record {
        own_vessel = own_vessel;
        station = station;
        ais_type = AisClass.class_b;
        mmsi = r.user;
        nav_status = NavigationStatus.not_defined;
        rot = none;
        rot_direction = none;
        sog_knots = sog_tenths f64 r.speed;
        high_position_accuracy = not (r.accuracy == 0);
        latitude = coordinate f64 600000 0x3412140 r.lat;
        longitude = coordinate f64 600000 0x6791ac0 r.lon;
        cog = cog_tenths f64 r.course;
        heading_true = heading f64 r.true_heading;
        timestamp_seconds = r.second;
        positioning_system_meta = none;
        current_gnss_position = none;
        special_manoeuvre = none;
        raim_flag = not (r.unit == 0);
        class_b_unit_flag = none;
        class_b_display = some (not (r.unit == 0));
        class_b_dsc = some (not (r.display == 0));
        class_b_band_flag = some (not (r.dsc == 0));
        class_b_msg22_flag = some (not (r.band == 0));
        class_b_mode_flag = some (not (r.msg22 == 0));
        class_b_css_flag = none;
        radio_status = some r.radio;
      }
  unfolding report
  report-encode station own_vessel =
      let fs = layout r in
      let lon_32 : as_i32 r.lon ≡ r.lon =
        as_i32_lem r.lon (omega (arith, v.lon_fits)) (omega (arith, v.lon_fits)) in
      let lat_32 : as_i32 r.lat ≡ r.lat =
        as_i32_lem r.lat (omega (arith, v.lat_fits)) (omega (arith, v.lat_fits)) in
      rw (
        pick_nth fs 2 30 r.user refl (omega arith) v.user_fits,
        pick_nth fs 4 10 r.speed refl (omega arith) v.speed_fits,
        pick_nth fs 5 1 r.accuracy refl (omega arith) v.accuracy_fits,
        pick_signed_nth fs 6 28 r.lon refl (omega arith) (omega arith) v.lon_fits,
        pick_signed_nth fs 7 27 r.lat refl (omega arith) (omega arith) v.lat_fits,
        pick_nth fs 8 12 r.course refl (omega arith) v.course_fits,
        pick_nth fs 9 9 r.true_heading refl (omega arith) v.true_heading_fits,
        pick_nth fs 10 6 r.second refl (omega arith) v.second_fits,
        pick_nth fs 12 1 r.unit refl (omega arith) v.unit_fits,
        pick_nth fs 13 1 r.display refl (omega arith) v.display_fits,
        pick_nth fs 14 1 r.dsc refl (omega arith) v.dsc_fits,
        pick_nth fs 15 1 r.band refl (omega arith) v.band_fits,
        pick_nth fs 16 1 r.msg22 refl (omega arith) v.msg22_fits,
        pick_nth fs 20 19 r.radio refl (omega arith) v.radio_fits,
        lon_32,
        lat_32,
        narrow r.user (2 ^ 32) (omega (arith, v.user_fits)),
        narrow r.second (2 ^ 8) (omega (arith, v.second_fits)),
        narrow r.radio (2 ^ 32) (omega (arith, v.radio_fits)),
      )
