-- ===== src/Parser/Dispatch/Minimums.antt =====
-- An RMC sentence from its fields, through the text with its checksum, to its message.
use nmea_parser.Common.{drop, [], ◌+◌, Option, ◌<◌, ◌≡◌, refl, ◌∙◌, Bool, some, ◌∷◌, ◌++◌, ok, pos}
use nmea_parser.Text.{Text, Lacks, codes, get_range, byte_len, split_at}
use nmea_parser.Text.Joined.{join, AllLack}
use nmea_parser.Numbers.{F64}
use nmea_parser.Chrono.{Chrono}
use nmea_parser.Store.{NmeaParser}
use nmea_parser.Message.{ParsedMessage}
use nmea_parser.Gnss.Libraries.{Libraries}
use nmea_parser.Gnss.Data.{GnssMessage}
use nmea_parser.Gnss.Coordinates.Digits.{IsDegrees}
use nmea_parser.Gnss.Dispatch.{gnss_message, dispatch_gnss}
use nmea_parser.Gnss.Rmc.Printed.{RmcText, rmc_fields, read_minimum, handle-printed}
use nmea_parser.Gnss.Fields.Printed.{Reads}
use nmea_parser.Parser.Frame.{before_comma, all_type_chars, checksum, show_hex}
use nmea_parser.Parser.Talker.{NavigationSystem, identify}
use nmea_parser.Parser.Dispatch.{parse_sentence}
use nmea_parser.Gnss.Times.Printed.{three}
use nmea_parser.Parser.Dispatch.Printed.{IsGpsType, parse_sentence-printed}

-- The sentence without its checksum.
abbrev pub minimum_sentence : RmcText → Text
minimum_sentence r = join b',' (codes "$GPRMC") (rmc_fields r)

minimum-IsGpsType : IsGpsType (codes "$GPRMC") (codes "$RMC")
unfolding before_comma all_type_chars identify get_range byte_len split_at
minimum-IsGpsType = record {
  marked = λ rest. refl;
  accepted = λ rest. refl;
  identified = refl;
  no_message = refl;
  no_own_message = refl;
}

module _ {F S T Z : Type 0} (f64 : F64 F) (chrono : Chrono T) (libs : Libraries S Z) (checks : Bool)
    (self : NmeaParser T) (r : RmcText) where
  -- An RMC sentence that is put together from its fields, none with a comma or a star, and its
  -- checksum is answered by all of them, and leaves the store as it is, whatever stands in front of it
  -- (no mark) and behind the checksum (no star): with the time that chrono gives for the date in the
  -- years from 2000 to 2099, or none where it gives none, where chrono gives the first second of 2020
  -- and its year, the numbers of the time and the date are below 100, the coordinates are degrees, and
  -- the library reads the texts of the other numbers, none empty.
  pub parse_sentence-minimum :
      (pre tail : Text) (now : T) (time : Option T) (speed track variation : F)
      → Lacks b'$' pre × Lacks b'!' pre
      → Lacks b'*' tail
      → AllLack b',' (codes "$GPRMC") (rmc_fields r)
      → AllLack b'*' (codes "$GPRMC") (rmc_fields r)
      → chrono.with_ymd_and_hms (pos 2020) 1 1 0 0 0 ≡ some now
      → chrono.year now ≡ pos 2020
      → chrono.ymd_and_hms_nano (pos (2000 + r.year)) r.month r.day r.hour r.minute r.second 0
        ≡ time
      → (r.day < 100) × (r.month < 100) × (r.year < 100)
      → (r.hour < 100) × (r.minute < 100) × (r.second < 100)
      → IsDegrees 4 r.lat × IsDegrees 5 r.lon
      → Reads f64.parse r.speed speed
        × Reads f64.parse r.track track
        × Reads f64.parse r.variation variation
      → let s = minimum_sentence r in
        parse_sentence f64 chrono libs checks self
          (pre ++ (s ++ (b'*' ∷ (show_hex (checksum s) ++ tail))))
        ≡ (
          self,
          ok (
              ParsedMessage.gnss (
                GnssMessage.rmc
                  (read_minimum f64 r NavigationSystem.gps time speed track variation))),
        )
  unfolding dispatch_gnss gnss_message
  parse_sentence-minimum pre tail now time speed track variation front no_star commas stars clock
        is_2020 date dmy hms degrees reads =
      parse_sentence-printed f64 chrono libs checks self (codes "$GPRMC") (codes "$RMC")
        minimum-IsGpsType (three r.hour r.minute r.second []) (drop 1 (rmc_fields r)) pre tail front
        no_star stars
      ∙ rw (
          handle-printed {S = S} {Z = Z} f64 chrono r NavigationSystem.gps now time speed track
            variation commas clock is_2020 date dmy hms degrees reads)
