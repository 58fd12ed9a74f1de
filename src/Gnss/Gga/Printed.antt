-- ===== src/Gnss/Gga/Printed.antt =====
-- A GGA sentence that was put together from its fields.
use nmea_parser.Common.{ℕ, ◌^◌, ◌<◌, ◌≡◌, refl, some, List, [], ◌∷◌, ok, pos, arith}
use nmea_parser.Text.{Text, codes, show_u64, parse_unsigned}
use nmea_parser.Text.Joined.{join, AllLack, split-join}
use nmea_parser.Numbers.{F64}
use nmea_parser.Chrono.{Chrono}
use nmea_parser.Parser.Talker.{NavigationSystem}
use nmea_parser.Gnss.Data.{GnssMessage, GgaData}
use nmea_parser.Gnss.Fields.Printed.{Reads, pick_number_field-Reads, show_u64-Reads}
use nmea_parser.Gnss.Times.Printed.{parse_valid_utc-some}
use nmea_parser.Gnss.Codes.{gga_quality}
use nmea_parser.Gnss.Times.{start_of_2000}
use nmea_parser.Gnss.Times.Printed.{three, parse_hhmmss-three}
use nmea_parser.Gnss.Coordinates.{signed_by}
use nmea_parser.Gnss.Coordinates.Digits.{IsDegrees}
use nmea_parser.Gnss.Coordinates.Values.{degrees_value, latitude-IsDegrees, longitude-IsDegrees}
use nmea_parser.Gnss.Gga.{handle}

-- What the sentence says, as texts where the library reads the number.
pub record GgaText : Type 0 where
  pub hour : ℕ
  pub minute : ℕ
  pub second : ℕ
  pub lat : Text
  pub north_south : Text
  pub lon : Text
  pub east_west : Text
  pub quality : ℕ
  pub satellites : ℕ
  pub hdop : Text
  pub altitude : Text
  pub separation : Text
  pub age : Text
  pub station : ℕ

-- The fields of the sentence behind its type, with the units of metres.
abbrev pub gga_fields : GgaText → List Text
gga_fields g =
    three g.hour g.minute g.second []
    ∷ g.lat
    ∷ g.north_south
    ∷ g.lon
    ∷ g.east_west
    ∷ show_u64 g.quality
    ∷ show_u64 g.satellites
    ∷ g.hdop
    ∷ g.altitude
    ∷ codes "M"
    ∷ g.separation
    ∷ codes "M"
    ∷ g.age
    ∷ show_u64 g.station
    ∷ []

abbrev type_and_fields : GgaText → List Text
type_and_fields g = codes "$GPGGA" ∷ gga_fields g

-- What is read from it, for the time and the numbers that the libraries give.
abbrev pub read_fix :
    {F T : Type 0} → F64 F → GgaText → NavigationSystem → T → F → F → F → F → GgaData F T
read_fix f64 g nav_system t hdop alt separation age = record {
  source = nav_system;
  timestamp = some t;
  latitude = some (signed_by f64 (codes "S") g.north_south (degrees_value f64 2 2 g.lat));
  longitude = some (signed_by f64 (codes "W") g.east_west (degrees_value f64 3 2 g.lon));
  quality = gga_quality g.quality;
  satellite_count = some g.satellites;
  hdop = some hdop;
  altitude = some alt;
  geoid_separation = some separation;
  age_of_dgps = some age;
  ref_station_id = some g.station;
}

module _ {F S T Z : Type 0} (f64 : F64 F) (chrono : Chrono T) (g : GgaText) where
  -- A GGA sentence that is put together from its fields, of which none holds a comma, is read back
  -- as all of them, where chrono gives the first second of 2000 and the time of day on that day, of
  -- two digits each, the coordinates are degrees, the counts fit their widths, and the library reads
  -- the texts of the other numbers, none of them empty.
  pub handle-printed :
      (nav_system : NavigationSystem) (now t : T) (hdop alt separation age : F)
      → AllLack b',' (codes "$GPGGA") (gga_fields g)
      → chrono.with_ymd_and_hms (pos 2000) 1 1 0 0 0 ≡ some now
      → chrono.ymd_and_hms_nano
          (chrono.year now)
          (chrono.month now)
          (chrono.day now)
          g.hour
          g.minute
          g.second
          0
        ≡ some t
      → (g.hour < 100) × (g.minute < 100) × (g.second < 100)
      → IsDegrees 4 g.lat × IsDegrees 5 g.lon
      → (g.quality < 2 ^ 8) × (g.satellites < 2 ^ 8) × (g.station < 2 ^ 16)
      → Reads f64.parse g.hdop hdop
        × Reads f64.parse g.altitude alt
        × Reads f64.parse g.separation separation
        × Reads f64.parse g.age age
      → handle {S = S} {Z = Z} f64 chrono (join b',' (codes "$GPGGA") (gga_fields g)) nav_system
        ≡ ok (GnssMessage.gga (read_fix f64 g nav_system t hdop alt separation age))
  unfolding handle start_of_2000
  handle-printed nav_system now t hdop alt separation age lacks clock time hms degrees small reads =
      let fields = type_and_fields g in
      rw (
        split-join b',' (codes "$GPGGA") (gga_fields g) lacks,
        clock,
        parse_hhmmss-three chrono g.hour g.minute g.second [] now hms.0 hms.1 hms.2,
        parse_valid_utc-some chrono (chrono.year now) (chrono.month now) (chrono.day now) g.hour
            g.minute g.second t time,
        latitude-IsDegrees f64 g.lat g.north_south degrees.0,
        longitude-IsDegrees f64 g.lon g.east_west degrees.1,
        pick_number_field-Reads (parse_unsigned (2 ^ 8)) fields 6 (show_u64 g.quality) g.quality
            refl (show_u64-Reads (2 ^ 8) g.quality (omega arith) small.0),
        pick_number_field-Reads (parse_unsigned (2 ^ 8)) fields 7 (show_u64 g.satellites)
            g.satellites refl (show_u64-Reads (2 ^ 8) g.satellites (omega arith) small.1),
        pick_number_field-Reads f64.parse fields 8 g.hdop hdop refl reads.0,
        pick_number_field-Reads f64.parse fields 9 g.altitude alt refl reads.1,
        pick_number_field-Reads f64.parse fields 11 g.separation separation refl reads.2,
        pick_number_field-Reads f64.parse fields 13 g.age age refl reads.3,
        pick_number_field-Reads (parse_unsigned (2 ^ 16)) fields 14 (show_u64 g.station) g.station
            refl (show_u64-Reads (2 ^ 16) g.station (omega arith) small.2),
      )
