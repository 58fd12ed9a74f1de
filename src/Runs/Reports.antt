-- ===== src/Runs/Reports.antt =====
-- The theorems on AIS messages at concrete inputs.
use nmea_parser.Common.{
  ℕ, ◌<◌, ◌≡◌, refl, ◌↔◌, ◌⊎◌, true, false, Option, none, some, [], ◌∷◌, arith, pos, negsuc, ◌≤ℤ◌,
  length, ok, panic,
}
use nmea_parser.Text.{Text, codes}
use nmea_parser.Bits.{Bits, pick_u64, pick_i64, parse_payload, six_bits}
use nmea_parser.Bits.Layout.{encode}
use nmea_parser.Store.{NmeaParser, lookup, new}
use nmea_parser.Message.{ParsedMessage}
use nmea_parser.Ais.Types.{Station, AisClass, NavigationStatus}
use nmea_parser.Ais.Fields.{pick_u32, coordinate, sog_tenths, cog_tenths, heading}
use nmea_parser.Ais.Vdm.T1t2t3.Layout.{PositionReport, InRange}
use nmea_parser.Ais.Vdm.T18
use nmea_parser.Ais.Vdm.T18.Layout as ClassB
use nmea_parser.Ais.Vdm.T24
use nmea_parser.Ais.Vdm.T24.{static_part}
use nmea_parser.Ais.Vdm.T24.Merge.{part_a, full_report}
use nmea_parser.Ais.Vdm.T24.Pairs.{held, handle-either_order, handle-part_a_twice}
use nmea_parser.Ais.Vdm.T25
use nmea_parser.Ais.Vdm.T26
use nmea_parser.Ais.Vdm.T27
use nmea_parser.Ais.Vdm.T27.Overlap.{report-latitude_determines, report-gnss_iff_north}
use nmea_parser.Ais.Vdm.Slices.{header, single_slot_panics, multiple_slot_panics}
use nmea_parser.Parser.Dispatch.{ais_message}
use nmea_parser.Parser.Dispatch.Panics.{ais_message_panics}
use nmea_parser.Runs.Toys.{Float, Time, floats, calendar, payload_bits}

abbrev pub anchored : PositionReport
anchored = record {
  kind = 1;
  repeat = 0;
  user = 371798000;
  status = 1;
  turn = negsuc 126;
  speed = 123;
  accuracy = 1;
  lon = negsuc 74037230;
  lat = pos 29028789;
  course = 2240;
  true_heading = 215;
  second = 33;
  manoeuvre = 0;
  spare = 0;
  raim = 0;
  radio = 34017;
}

pub anchored-InRange : InRange anchored
anchored-InRange = record {
  kind_fits = omega arith;
  user_fits = omega arith;
  status_fits = omega arith;
  turn_fits = (omega arith, omega arith);
  speed_fits = omega arith;
  accuracy_fits = omega arith;
  lon_fits = (omega arith, omega arith);
  lat_fits = (omega arith, omega arith);
  course_fits = omega arith;
  heading_fits = omega arith;
  second_fits = omega arith;
  manoeuvre_fits = omega arith;
  raim_fits = omega arith;
  radio_fits = omega arith;
}

abbrev class_b : ClassB.ClassBReport
class_b = record {
  kind = 18;
  repeat = 0;
  user = 423302100;
  reserved = 15;
  speed = 14;
  accuracy = 1;
  lon = pos 31803000;
  lat = pos 24003000;
  course = 1770;
  true_heading = 177;
  second = 34;
  reserved_2 = 0;
  unit = 1;
  display = 0;
  dsc = 1;
  band = 1;
  msg22 = 1;
  mode = 0;
  raim = 0;
  selector = 1;
  radio = 393222;
}

report-encode_example :
    T18.report floats (encode (ClassB.layout class_b)) Station.mobile_station false ≡ record {
      own_vessel = false;
      station = Station.mobile_station;
      ais_type = AisClass.class_b;
      mmsi = 423302100;
      nav_status = NavigationStatus.not_defined;
      rot = none;
      rot_direction = none;
      sog_knots = sog_tenths floats 14;
      high_position_accuracy = true;
      latitude = coordinate floats 600000 0x3412140 (pos 24003000);
      longitude = coordinate floats 600000 0x6791ac0 (pos 31803000);
      cog = cog_tenths floats 1770;
      heading_true = heading floats 177;
      timestamp_seconds = 34;
      positioning_system_meta = none;
      current_gnss_position = none;
      special_manoeuvre = none;
      raim_flag = true;
      class_b_unit_flag = none;
      class_b_display = some true;
      class_b_dsc = some false;
      class_b_band_flag = some true;
      class_b_msg22_flag = some true;
      class_b_mode_flag = some true;
      class_b_css_flag = none;
      radio_status = some 393222;
    }
report-encode_example =
    ClassB.report-encode floats class_b
      (record {
        user_fits = omega arith;
        speed_fits = omega arith;
        accuracy_fits = omega arith;
        lon_fits = (omega arith, omega arith);
        lat_fits = (omega arith, omega arith);
        course_fits = omega arith;
        true_heading_fits = omega arith;
        second_fits = omega arith;
        unit_fits = omega arith;
        display_fits = omega arith;
        dsc_fits = omega arith;
        band_fits = omega arith;
        msg22_fits = omega arith;
        radio_fits = omega arith;
      })
      Station.mobile_station false

empty_store : NmeaParser Time
unfolding new
empty_store = new

static_a : Bits
unfolding parse_payload
static_a = payload_bits (codes "H42O55i18tMET00000000000000")

static_b : Bits
unfolding parse_payload
static_b = payload_bits (codes "H42O55lti4hhhilD3nink000?050")

handle-either_order_example :
    let station = Station.other in
    let first = T24.handle {F = Float} {G = ℕ} static_a station empty_store false in
    let then_b = T24.handle {F = Float} {G = ℕ} static_b station first.0 false in
    let second = T24.handle {F = Float} {G = ℕ} static_b station empty_store false in
    let then_a = T24.handle {F = Float} {G = ℕ} static_a station second.0 false in
    (call_sign : Option Text) × (vendor : Text) × (name : Option Text) × (static_part {T = Time}
        static_b false true
      ≡ ok (full_report static_b false (pick_u32 static_b 8 30) call_sign vendor none))
    × (static_part {T = Time} static_a false false
        ≡ ok (part_a false (pick_u32 static_a 8 30) name))
    × (first.1 ≡ ok ParsedMessage.incomplete)
    × (then_b.1
        ≡ ok (
            ParsedMessage.vessel_static_data
              (full_report static_b false (pick_u32 static_b 8 30) call_sign vendor name)))
    × ((j : ℕ) → held then_b.0 j ≡ held empty_store j)
    × (then_b.0.saved_fragments ≡ empty_store.saved_fragments)
    × (second.1 ≡ ok ParsedMessage.incomplete)
    × (then_a.1
        ≡ ok (
            ParsedMessage.vessel_static_data
              (full_report static_b false (pick_u32 static_b 8 30) call_sign vendor name)))
    × ((j : ℕ) → held then_a.0 j ≡ held empty_store j)
    × (then_a.0.saved_fragments ≡ empty_store.saved_fragments)
unfolding static_a static_b empty_store lookup pick_u64 six_bits
handle-either_order_example =
    handle-either_order Station.other empty_store static_a static_b false refl refl refl refl

handle-part_a_twice_example :
    let first = T24.handle {F = Float} {G = ℕ} static_a Station.other empty_store false in
    let second = T24.handle {F = Float} {G = ℕ} static_a Station.other first.0 false in
    (name : Option Text) × (first.1 ≡ ok ParsedMessage.incomplete)
    × (second.1
        ≡ ok (ParsedMessage.vessel_static_data (part_a false (pick_u32 static_a 8 30) name)))
unfolding static_a empty_store lookup pick_u64 six_bits
handle-part_a_twice_example =
    handle-part_a_twice Station.other empty_store static_a static_a false refl refl refl refl

abbrev long_range : Bits
long_range = payload_bits (codes "KC5E2b@U19PFdLbMuc5=ROv62<7m")

report-latitude_determines_example :
    let r = T27.report floats [] Station.other false in
    let r' = T27.report floats (true ∷ []) Station.other false in
    (r.sog_knots ≡ r'.sog_knots)
    × (r.cog ≡ r'.cog)
    × (r.current_gnss_position ≡ r'.current_gnss_position)
unfolding pick_i64 pick_u64
report-latitude_determines_example =
    report-latitude_determines floats Station.other false [] (true ∷ []) refl

report-gnss_iff_north_example :
    ((T27.report floats long_range Station.other false).current_gnss_position ≡ some true)
    ↔ (pos 0 ≤ℤ pick_i64 long_range 62 17)
report-gnss_iff_north_example = report-gnss_iff_north floats Station.other false long_range

abbrev six_bits_long : Bits
six_bits_long = false ∷ true ∷ true ∷ false ∷ false ∷ true ∷ []

single_slot_panics_example :
    (T25.handle {F = Float} {T = Time} {G = ℕ} six_bits_long Station.other false ≡ panic)
    ↔ (length six_bits_long < header six_bits_long)
single_slot_panics_example = single_slot_panics six_bits_long Station.other false

multiple_slot_panics_example :
    (T26.handle {F = Float} {T = Time} {G = ℕ} false six_bits_long Station.other false ≡ panic)
    ↔ (length six_bits_long < header six_bits_long)
multiple_slot_panics_example =
    multiple_slot_panics six_bits_long Station.other false false (omega arith)

ais_message_panics_example :
    (◌≡◌ {A = ℕ} 25 25 ⊎ ◌≡◌ {A = ℕ} 25 26) × (length six_bits_long < header six_bits_long)
unfolding ais_message T25.handle T25.slice_from pick_u64
ais_message_panics_example =
    ais_message_panics {F = Float} {T = Time} {G = ℕ} floats calendar false (744000, 0) refl 25
      six_bits_long Station.other false (omega arith) refl
