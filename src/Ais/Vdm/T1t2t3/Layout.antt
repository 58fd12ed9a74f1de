-- ===== src/Ais/Vdm/T1t2t3/Layout.antt =====
-- Types 1 to 3 against the layout of the message in ITU-R M.1371.
use nmea_parser.Common.{
  ℕ, ◌%◌, ◌^◌, ◌<◌, ◌≡◌, refl, Bool, none, some, [], ◌∷◌, not, ◌==◌, arith, ℤ, ok,
}
use nmea_parser.Bits.Signed.{complement, Fits}
use nmea_parser.Bits.Layout.{Fields, encode, pick_nth, pick_signed_nth}
use nmea_parser.Numbers.{F64, as_i32, as_i32_lem}
use nmea_parser.Ais.Data.{VesselDynamicData}
use nmea_parser.Message.{ParsedMessage}
use nmea_parser.Ais.Types.{Station, AisClass}
use nmea_parser.Ais.Codes.{navigation_status}
use nmea_parser.Ais.Fields.{coordinate, sog_tenths, cog_tenths, heading}
use nmea_parser.Ais.Vdm.T1t2t3.{
  rot, rot_direction, positioning_system_meta, special_manoeuvre, handle,
}

-- A position report as the standard's raw fields.
pub record PositionReport : Type 0 where
  pub kind : ℕ
  pub repeat : ℕ
  pub user : ℕ
  pub status : ℕ
  pub turn : ℤ
  pub speed : ℕ
  pub accuracy : ℕ
  pub lon : ℤ
  pub lat : ℤ
  pub course : ℕ
  pub true_heading : ℕ
  pub second : ℕ
  pub manoeuvre : ℕ
  pub spare : ℕ
  pub raim : ℕ
  pub radio : ℕ

abbrev pub layout : PositionReport → Fields
layout r =
    (6, r.kind)
    ∷ (2, r.repeat)
    ∷ (30, r.user)
    ∷ (4, r.status)
    ∷ (8, complement 8 r.turn)
    ∷ (10, r.speed)
    ∷ (1, r.accuracy)
    ∷ (28, complement 28 r.lon)
    ∷ (27, complement 27 r.lat)
    ∷ (12, r.course)
    ∷ (9, r.true_heading)
    ∷ (6, r.second)
    ∷ (2, r.manoeuvre)
    ∷ (3, r.spare)
    ∷ (1, r.raim)
    ∷ (19, r.radio)
    ∷ []

-- Each raw field fits its width.
pub record InRange (r : PositionReport) : Type 0 where
  pub kind_fits : r.kind < 64
  pub user_fits : r.user < 2 ^ 30
  pub status_fits : r.status < 16
  pub turn_fits : Fits 8 r.turn
  pub speed_fits : r.speed < 1024
  pub accuracy_fits : r.accuracy < 2
  pub lon_fits : Fits 28 r.lon
  pub lat_fits : Fits 27 r.lat
  pub course_fits : r.course < 4096
  pub heading_fits : r.true_heading < 512
  pub second_fits : r.second < 64
  pub manoeuvre_fits : r.manoeuvre < 4
  pub raim_fits : r.raim < 2
  pub radio_fits : r.radio < 2 ^ 19

narrow : (v m : ℕ) → v < m → v % m ≡ v
narrow v m h = grind arith

-- The message that stands for the report.
abbrev pub reported : {F : Type 0} → F64 F → PositionReport → Station → Bool → VesselDynamicData F
reported f64 r station own_vessel = record {
  own_vessel = own_vessel;
  station = station;
  ais_type = AisClass.class_a;
  mmsi = r.user;
  nav_status = navigation_status r.status;
  rot = rot f64 r.turn;
  rot_direction = rot_direction r.turn;
  sog_knots = sog_tenths f64 r.speed;
  high_position_accuracy = not (r.accuracy == 0);
  latitude = coordinate f64 600000 0x3412140 r.lat;
  longitude = coordinate f64 600000 0x6791ac0 r.lon;
  cog = cog_tenths f64 r.course;
  heading_true = heading f64 r.true_heading;
  timestamp_seconds = r.second;
  positioning_system_meta = positioning_system_meta r.second;
  current_gnss_position = none;
  special_manoeuvre = special_manoeuvre r.manoeuvre;
  raim_flag = not (r.raim == 0);
  class_b_unit_flag = none;
  class_b_display = none;
  class_b_dsc = none;
  class_b_band_flag = none;
  class_b_msg22_flag = none;
  class_b_mode_flag = none;
  class_b_css_flag = none;
  radio_status = some r.radio;
}

module _ {F T G : Type 0} (f64 : F64 F) (r : PositionReport) (v : InRange r) where
  -- From the bits that the standard prescribes, of raw fields that fit their widths, the handler
  -- reads back every field that it reports.
  pub handle-encode :
      (station : Station) (own_vessel : Bool)
      → handle {T = T} {G = G} f64 (encode (layout r)) station own_vessel
        ≡ ok (ParsedMessage.vessel_dynamic_data (reported f64 r station own_vessel))
  unfolding handle
  handle-encode station own_vessel =
      let fs = layout r in
      let lon_32 : as_i32 r.lon ≡ r.lon = as_i32_lem r.lon (omega arith) (omega arith) in
      let lat_32 : as_i32 r.lat ≡ r.lat = as_i32_lem r.lat (omega arith) (omega arith) in
      rw (
        pick_nth fs 2 30 r.user refl (omega arith) v.user_fits,
        pick_nth fs 3 4 r.status refl (omega arith) v.status_fits,
        pick_signed_nth fs 4 8 r.turn refl (omega arith) (omega arith) v.turn_fits,
        pick_nth fs 5 10 r.speed refl (omega arith) v.speed_fits,
        pick_nth fs 6 1 r.accuracy refl (omega arith) v.accuracy_fits,
        pick_signed_nth fs 7 28 r.lon refl (omega arith) (omega arith) v.lon_fits,
        pick_signed_nth fs 8 27 r.lat refl (omega arith) (omega arith) v.lat_fits,
        pick_nth fs 9 12 r.course refl (omega arith) v.course_fits,
        pick_nth fs 10 9 r.true_heading refl (omega arith) v.heading_fits,
        pick_nth fs 11 6 r.second refl (omega arith) v.second_fits,
        pick_nth fs 12 2 r.manoeuvre refl (omega arith) v.manoeuvre_fits,
        pick_nth fs 14 1 r.raim refl (omega arith) v.raim_fits,
        pick_nth fs 15 19 r.radio refl (omega arith) v.radio_fits,
        lon_32,
        lat_32,
        narrow r.user (2 ^ 32) (omega (arith, v.user_fits)),
        narrow r.status (2 ^ 8) (omega (arith, v.status_fits)),
        narrow r.second (2 ^ 8) (omega (arith, v.second_fits)),
        narrow r.second (2 ^ 16) (omega (arith, v.second_fits)),
        narrow r.radio (2 ^ 32) (omega (arith, v.radio_fits)),
      )
