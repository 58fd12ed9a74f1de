-- ===== src/Runs/Fixes.antt =====
-- GGA and RMC sentences from their fields, at concrete inputs.
use nmea_parser.Common.{some, ℕ, ◌≡◌, refl, true, Bool, ◌&&◌, List, [], ◌∷◌, ok, ◌++◌, arith}
use nmea_parser.Text.{Text, codes, show_u64}
use nmea_parser.Text.Joined.{AllLack}
use nmea_parser.Parser.Talker.{NavigationSystem}
use nmea_parser.Gnss.Data.{GnssMessage}
use nmea_parser.Gnss.Gga.Printed.{GgaText, gga_fields, read_fix}
use Prim.Native.String.{String}
use nmea_parser.Message.{ParsedMessage}
use nmea_parser.Parser.Frame.{checksum, show_hex}
use nmea_parser.Parser.Dispatch.{parse_sentence}
use nmea_parser.Parser.Dispatch.Fixes.{fix_sentence, parse_sentence-fix}
use nmea_parser.Gnss.Rmc.Printed.{RmcText, rmc_fields, read_minimum}
use nmea_parser.Parser.Dispatch.Minimums.{minimum_sentence, parse_sentence-minimum}
use nmea_parser.Runs.Bytes.{lacks_test, by_test, empty_store}
use nmea_parser.Runs.Toys.{libraries, Float, floats, calendar}

abbrev lacks_all : ℕ → Text → List Text → Bool
lacks_all d a [] = lacks_test d a
lacks_all d a (b ∷ bs) = lacks_test d a && lacks_all d b bs

lacks_all-AllLack : (d : ℕ) (a : Text) (bs : List Text) → lacks_all d a bs ≡ true → AllLack d a bs
lacks_all-AllLack d a [] e = by_test d a e
lacks_all-AllLack d a (b ∷ bs) e =
    (by_test d a (ground (arith, e)), lacks_all-AllLack d b bs (ground (arith, e)))

abbrev fix : GgaText
fix = record {
  hour = 12;
  minute = 35;
  second = 19;
  lat = codes "4807.038";
  north_south = codes "N";
  lon = codes "01131.000";
  east_west = codes "E";
  quality = 1;
  satellites = 8;
  hdop = codes "0.9";
  altitude = codes "545.4";
  separation = codes "46.9";
  age = codes "2";
  station = 31;
}

commas : lacks_all b',' (codes "$GPGGA") (gga_fields fix) ≡ true
unfolding show_u64
commas = refl

stars : lacks_all b'*' (codes "$GPGGA") (gga_fields fix) ≡ true
unfolding show_u64
stars = refl

abbrev number : String → Float
number s = Float.literal (codes s)

parse_sentence-fix_example :
    let s = fix_sentence fix in
    parse_sentence floats calendar libraries true empty_store
      (s ++ (b'*' ∷ (show_hex (checksum s) ++ (13 ∷ 10 ∷ []))))
    ≡ (
      empty_store,
      ok (
          ParsedMessage.gnss (
            GnssMessage.gga (
              read_fix floats fix NavigationSystem.gps
                (744000, 45319)
                (number "0.9")
                (number "545.4")
                (number "46.9")
                (number "2")))),
    )
parse_sentence-fix_example =
    parse_sentence-fix floats calendar libraries true empty_store fix [] (13 ∷ 10 ∷ []) (744000, 0)
      (744000, 45319) (number "0.9") (number "545.4") (number "46.9") (number "2") (tt, tt)
      (by_test b'*' (13 ∷ 10 ∷ []) refl)
      (lacks_all-AllLack b',' (codes "$GPGGA") (gga_fields fix) commas)
      (lacks_all-AllLack b'*' (codes "$GPGGA") (gga_fields fix) stars) refl refl
      (omega arith, omega arith, omega arith)
      (
        (refl, (refl, (refl, (refl, (refl, refl))))),
        (refl, (refl, (refl, (refl, (refl, (refl, refl)))))),
      )
      (omega arith, omega arith, omega arith)
      ((refl, refl), (refl, refl), (refl, refl), (refl, refl))

abbrev minimum : RmcText
minimum = record {
  hour = 22;
  minute = 54;
  second = 46;
  active = true;
  lat = codes "4916.45";
  north_south = codes "N";
  lon = codes "12311.12";
  east_west = codes "W";
  speed = codes "000.5";
  track = codes "054.7";
  day = 19;
  month = 11;
  year = 20;
  variation = codes "020.3";
  east = true;
}

parse_sentence-minimum_example :
    let s = minimum_sentence minimum in
    parse_sentence floats calendar libraries true empty_store
      (s ++ (b'*' ∷ (show_hex (checksum s) ++ (13 ∷ 10 ∷ []))))
    ≡ (
      empty_store,
      ok (
          ParsedMessage.gnss (
            GnssMessage.rmc (
              read_minimum floats minimum NavigationSystem.gps
                (some (751768, 82486))
                (number "000.5")
                (number "054.7")
                (number "020.3")))),
    )
parse_sentence-minimum_example =
    parse_sentence-minimum floats calendar libraries true empty_store minimum [] (13 ∷ 10 ∷ [])
      (751440, 0) (some (751768, 82486)) (number "000.5") (number "054.7") (number "020.3") (tt, tt)
      (by_test b'*' (13 ∷ 10 ∷ []) refl)
      (lacks_all-AllLack b',' (codes "$GPRMC") (rmc_fields minimum) refl)
      (lacks_all-AllLack b'*' (codes "$GPRMC") (rmc_fields minimum) refl) refl refl refl
      (omega arith, omega arith, omega arith) (omega arith, omega arith, omega arith)
      (
        (refl, (refl, (refl, (refl, (refl, refl))))),
        (refl, (refl, (refl, (refl, (refl, (refl, refl)))))),
      )
      ((refl, refl), (refl, refl), (refl, refl))
