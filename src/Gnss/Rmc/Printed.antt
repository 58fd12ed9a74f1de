-- ===== src/Gnss/Rmc/Printed.antt =====
-- An RMC sentence that was put together from its fields.
use nmea_parser.Common.{
  ℕ, ◌+◌, ◌<◌, ◌≡◌, refl, Bool, true, false, if◌then◌else◌, Option, some, List, [], ◌∷◌, ok, pos,
}
use nmea_parser.Text.{Text, codes}
use nmea_parser.Text.Joined.{join, AllLack, split-join}
use nmea_parser.Numbers.{F64}
use nmea_parser.Chrono.{Chrono}
use nmea_parser.Parser.Talker.{NavigationSystem}
use nmea_parser.Gnss.Data.{GnssMessage, RmcData}
use nmea_parser.Gnss.Fields.Printed.{Reads, pick_number_field-Reads}
use nmea_parser.Gnss.Codes.{rmc_status}
use nmea_parser.Gnss.Times.Printed.{three, parse_yymmdd_hhmmss-three, parse_valid_utc-option}
use nmea_parser.Gnss.Coordinates.{signed_by}
use nmea_parser.Gnss.Coordinates.Digits.{IsDegrees}
use nmea_parser.Gnss.Coordinates.Values.{degrees_value, latitude-IsDegrees, longitude-IsDegrees}
use nmea_parser.Gnss.Rmc.{variation_of, handle}

-- What the sentence says, as texts where the library reads the number.
pub record RmcText : Type 0 where
  pub hour : ℕ
  pub minute : ℕ
  pub second : ℕ
  pub active : Bool
  pub lat : Text
  pub north_south : Text
  pub lon : Text
  pub east_west : Text
  pub speed : Text
  pub track : Text
  pub day : ℕ
  pub month : ℕ
  pub year : ℕ
  pub variation : Text
  pub east : Bool

-- The fields of the sentence behind its type; the year as its last two digits.
abbrev pub rmc_fields : RmcText → List Text
rmc_fields r =
    three r.hour r.minute r.second []
    ∷ (if r.active then codes "A" else codes "V")
    ∷ r.lat
    ∷ r.north_south
    ∷ r.lon
    ∷ r.east_west
    ∷ r.speed
    ∷ r.track
    ∷ three r.day r.month r.year []
    ∷ r.variation
    ∷ (if r.east then codes "E" else codes "W")
    ∷ []

-- What is read from it, for the time, if there is one, and the numbers that the libraries give.
abbrev pub read_minimum :
    {F T : Type 0} → F64 F → RmcText → NavigationSystem → Option T → F → F → F → RmcData F T
read_minimum f64 r nav_system time speed track variation = record {
  source = nav_system;
  timestamp = time;
  status_active = some r.active;
  latitude = some (signed_by f64 (codes "S") r.north_south (degrees_value f64 2 2 r.lat));
  longitude = some (signed_by f64 (codes "W") r.east_west (degrees_value f64 3 2 r.lon));
  sog_knots = some speed;
  bearing = some track;
  variation = some (if r.east then variation else f64.neg variation);
}

rmc_status-active :
    (active : Bool) → rmc_status (if active then codes "A" else codes "V") ≡ ok (some active)
unfolding rmc_status
rmc_status-active true = refl
rmc_status-active false = refl

variation_of-east :
    {F : Type 0} (f64 : F64 F) (east : Bool) (val : F)
    → variation_of f64 (if east then codes "E" else codes "W") (some val)
      ≡ ok (some (if east then val else f64.neg val))
unfolding variation_of
variation_of-east f64 true val = refl
variation_of-east f64 false val = refl

module _ {F S T Z : Type 0} (f64 : F64 F) (chrono : Chrono T) (r : RmcText) where
  pub handle-printed :
      (nav_system : NavigationSystem) (now : T) (time : Option T) (speed track variation : F)
      → AllLack b',' (codes "$GPRMC") (rmc_fields r)
      → chrono.with_ymd_and_hms (pos 2020) 1 1 0 0 0 ≡ some now
      → chrono.year now ≡ pos 2020
      → chrono.ymd_and_hms_nano (pos (2000 + r.year)) r.month r.day r.hour r.minute r.second 0
        ≡ time
      → (r.day < 100) × (r.month < 100) × (r.year < 100)
      → (r.hour < 100) × (r.minute < 100) × (r.second < 100)
      → IsDegrees 4 r.lat × IsDegrees 5 r.lon
      → Reads f64.parse r.speed speed
        × Reads f64.parse r.track track
        × Reads f64.parse r.variation variation
      → handle {S = S} {Z = Z} f64 chrono (join b',' (codes "$GPRMC") (rmc_fields r)) nav_system
        ≡ ok (GnssMessage.rmc (read_minimum f64 r nav_system time speed track variation))
  unfolding handle
  handle-printed nav_system now time speed track variation lacks clock is_2020 date dmy hms degrees
        reads =
      let fields : List Text = codes "$GPRMC" ∷ rmc_fields r in
      rw (
        split-join b',' (codes "$GPRMC") (rmc_fields r) lacks,
        parse_yymmdd_hhmmss-three chrono now clock is_2020 r.day r.month r.year r.hour r.minute
            r.second [] [] dmy hms,
        parse_valid_utc-option chrono (pos (2000 + r.year)) r.month r.day r.hour r.minute r.second
            time date,
        rmc_status-active r.active,
        latitude-IsDegrees f64 r.lat r.north_south degrees.0,
        longitude-IsDegrees f64 r.lon r.east_west degrees.1,
        pick_number_field-Reads f64.parse fields 7 r.speed speed refl reads.0,
        pick_number_field-Reads f64.parse fields 8 r.track track refl reads.1,
        pick_number_field-Reads f64.parse fields 10 r.variation variation refl reads.2,
        variation_of-east f64 r.east variation,
      )
