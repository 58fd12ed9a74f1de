-- ===== src/Ais/Vdm/T5/Layout.antt =====
-- Type 5 against the layout of the message in ITU-R M.1371.
use nmea_parser.Common.{
  ℕ, ◌%◌, ◌^◌, ◌<◌, ◌≡◌, refl, Bool, ◌&&◌, ◌==◌, if◌then◌else◌, Option, none, some, [], ◌∷◌, ◌++◌,
  pos, Outcome, ok, ◌>>=◌, arith,
}
use nmea_parser.Text.{Text}
use nmea_parser.Bits.{pick_string}
use nmea_parser.Bits.Layout.{Fields, encode, pick_nth}
use nmea_parser.Bits.Layout.Texts.{text_fields, IsFieldText, pick_text}
use nmea_parser.Chrono.{Chrono}
use nmea_parser.Eta.{pick_eta, pick_eta_with_now, complete_eta}
use nmea_parser.Message.{ParsedMessage}
use nmea_parser.Ais.Types.{Station, AisClass}
use nmea_parser.Ais.Data.{VesselStaticData}
use nmea_parser.Ais.Codes.{ship_type, cargo_type}
use nmea_parser.Ais.Fields.{unless, non_empty, fix_type}
use nmea_parser.Ais.Vdm.T5.{handle}

-- A voyage report as the standard's raw fields; `fill` is what fills its last six-bit value up.
pub record VoyageReport : Type 0 where
  pub repeat : ℕ
  pub user : ℕ
  pub version : ℕ
  pub imo : ℕ
  pub call : Text
  pub ship : Text
  pub kind : ℕ
  pub bow : ℕ
  pub stern : ℕ
  pub port : ℕ
  pub starboard : ℕ
  pub fix : ℕ
  pub month : ℕ
  pub day : ℕ
  pub hour : ℕ
  pub minute : ℕ
  pub draught : ℕ
  pub target : Text
  pub terminal : ℕ
  pub spare : ℕ
  pub fill : ℕ

abbrev front : VoyageReport → Fields
front r = (6, 5) ∷ (2, r.repeat) ∷ (30, r.user) ∷ (2, r.version) ∷ (30, r.imo) ∷ []

abbrev middle : VoyageReport → Fields
middle r =
    (8, r.kind)
    ∷ (9, r.bow)
    ∷ (9, r.stern)
    ∷ (6, r.port)
    ∷ (6, r.starboard)
    ∷ (4, r.fix)
    ∷ (4, r.month)
    ∷ (5, r.day)
    ∷ (5, r.hour)
    ∷ (6, r.minute)
    ∷ (8, r.draught)
    ∷ []

abbrev back : VoyageReport → Fields
back r = (1, r.terminal) ∷ (1, r.spare) ∷ (2, r.fill) ∷ []

abbrev pub layout : VoyageReport → Fields
layout r =
    front r
    ++ (text_fields 7 r.call
        ++ (text_fields 20 r.ship ++ (middle r ++ (text_fields 20 r.target ++ back r))))

-- Each raw field fits its width.
pub record InRange (r : VoyageReport) : Type 0 where
  pub user_fits : r.user < 2 ^ 30
  pub version_fits : r.version < 4
  pub imo_fits : r.imo < 2 ^ 30
  pub call_fits : IsFieldText 7 r.call
  pub ship_fits : IsFieldText 20 r.ship
  pub kind_fits : r.kind < 256
  pub bow_fits : r.bow < 512
  pub stern_fits : r.stern < 512
  pub port_fits : r.port < 64
  pub starboard_fits : r.starboard < 64
  pub fix_fits : r.fix < 16
  pub month_fits : r.month < 16
  pub day_fits : r.day < 32
  pub hour_fits : r.hour < 32
  pub minute_fits : r.minute < 64
  pub draught_fits : r.draught < 256
  pub target_fits : IsFieldText 20 r.target

-- The time of arrival of a report, from the first second of 2000 on: none where it is not
-- available, else the date that its fields complete to, or an error.
abbrev pub arrival : {T : Type 0} → Chrono T → T → VoyageReport → Outcome (Option T)
arrival chrono now r =
    if r.month == 0 && r.day == 0 && r.hour == 24 && r.minute == 60
    then ok none
    else complete_eta chrono now r.month r.day r.hour r.minute

-- The message that stands for the report.
abbrev pub reported : {T : Type 0} → VoyageReport → Bool → Option T → VesselStaticData T
reported r own_vessel eta = record {
  own_vessel = own_vessel;
  ais_type = AisClass.class_b;
  mmsi = r.user;
  ais_version_indicator = r.version;
  imo_number = unless 0 r.imo;
  call_sign = non_empty r.call;
  name = non_empty r.ship;
  ship_type = ship_type r.kind;
  cargo_type = cargo_type r.kind;
  equipment_vendor_id = none;
  equipment_model = none;
  equipment_serial_number = none;
  dimension_to_bow = some r.bow;
  dimension_to_stern = some r.stern;
  dimension_to_port = some r.port;
  dimension_to_starboard = some r.starboard;
  position_fix_type = fix_type r.fix;
  eta = eta;
  draught10 = some r.draught;
  destination = non_empty r.target;
  mothership_mmsi = none;
}

narrow : (v m : ℕ) → v < m → v % m ≡ v
narrow v m h = grind arith

module _ (r : VoyageReport) (v : InRange r) where
  pick_call : pick_string (encode (layout r)) 70 7 ≡ ok r.call
  pick_call =
      pick_text (front r)
        (text_fields 20 r.ship ++ (middle r ++ (text_fields 20 r.target ++ back r))) 7 r.call
        v.call_fits

  pick_ship : pick_string (encode (layout r)) 112 20 ≡ ok r.ship
  pick_ship =
      pick_text (front r ++ text_fields 7 r.call) (middle r ++ (text_fields 20 r.target ++ back r))
        20 r.ship v.ship_fits

  pick_target : pick_string (encode (layout r)) 302 20 ≡ ok r.target
  pick_target =
      pick_text (front r ++ (text_fields 7 r.call ++ (text_fields 20 r.ship ++ middle r))) (back r)
        20 r.target v.target_fits

  pick_arrival :
      {T : Type 0} (chrono : Chrono T) (now : T)
      → chrono.with_ymd_and_hms (pos 2000) 1 1 0 0 0 ≡ some now
      → pick_eta chrono (encode (layout r)) 274 ≡ arrival chrono now r
  unfolding pick_eta pick_eta_with_now
  pick_arrival chrono now clock =
      let fs = layout r in
      rw (
        clock,
        pick_nth fs 38 4 r.month refl (omega arith) v.month_fits,
        pick_nth fs 39 5 r.day refl (omega arith) v.day_fits,
        pick_nth fs 40 5 r.hour refl (omega arith) v.hour_fits,
        pick_nth fs 41 6 r.minute refl (omega arith) v.minute_fits,
        narrow r.month (2 ^ 32) (omega (arith, v.month_fits)),
        narrow r.day (2 ^ 32) (omega (arith, v.day_fits)),
        narrow r.hour (2 ^ 32) (omega (arith, v.hour_fits)),
        narrow r.minute (2 ^ 32) (omega (arith, v.minute_fits)),
      )

  -- Where chrono gives the first second of 2000: from the bits that the standard prescribes, of raw
  -- fields that fit their widths and texts that fit their fields, the handler reads back every field
  -- that it reports, with the time of arrival completed from that second, or its error.
  pub handle-encode :
      {F T G : Type 0} (chrono : Chrono T) (now : T) (s : Station) (own_vessel : Bool)
      → chrono.with_ymd_and_hms (pos 2000) 1 1 0 0 0 ≡ some now
      → handle {F = F} {G = G} chrono (encode (layout r)) s own_vessel ≡ (
          arrival chrono now r >>= λ eta.
          ok (ParsedMessage.vessel_static_data (reported r own_vessel eta)))
  unfolding handle
  handle-encode chrono now s own_vessel clock =
      let fs = layout r in
      rw (
        pick_call,
        pick_ship,
        pick_target,
        pick_arrival chrono now clock,
        pick_nth fs 2 30 r.user refl (omega arith) v.user_fits,
        pick_nth fs 3 2 r.version refl (omega arith) v.version_fits,
        pick_nth fs 4 30 r.imo refl (omega arith) v.imo_fits,
        pick_nth fs 32 8 r.kind refl (omega arith) v.kind_fits,
        pick_nth fs 33 9 r.bow refl (omega arith) v.bow_fits,
        pick_nth fs 34 9 r.stern refl (omega arith) v.stern_fits,
        pick_nth fs 35 6 r.port refl (omega arith) v.port_fits,
        pick_nth fs 36 6 r.starboard refl (omega arith) v.starboard_fits,
        pick_nth fs 37 4 r.fix refl (omega arith) v.fix_fits,
        pick_nth fs 42 8 r.draught refl (omega arith) v.draught_fits,
        narrow r.user (2 ^ 32) (omega (arith, v.user_fits)),
        narrow r.version (2 ^ 8) (omega (arith, v.version_fits)),
        narrow r.imo (2 ^ 32) (omega (arith, v.imo_fits)),
        narrow r.kind (2 ^ 8) (omega (arith, v.kind_fits)),
        narrow r.bow (2 ^ 16) (omega (arith, v.bow_fits)),
        narrow r.stern (2 ^ 16) (omega (arith, v.stern_fits)),
        narrow r.port (2 ^ 16) (omega (arith, v.port_fits)),
        narrow r.starboard (2 ^ 16) (omega (arith, v.starboard_fits)),
        narrow r.fix (2 ^ 8) (omega (arith, v.fix_fits)),
        narrow r.draught (2 ^ 8) (omega (arith, v.draught_fits)),
      )
