-- ===== src/Parser/Dispatch/Fixes.antt =====
-- A GGA sentence from its fields, through the text with its checksum, to its message.
use nmea_parser.Common.{drop, [], ◌^◌, ◌<◌, ◌≡◌, refl, ◌∙◌, Bool, some, ◌∷◌, ◌++◌, ok, pos}
use nmea_parser.Text.{Text, Lacks, codes, get_range, byte_len, split_at}
use nmea_parser.Text.Joined.{join, AllLack}
use nmea_parser.Numbers.{F64}
use nmea_parser.Chrono.{Chrono}
use nmea_parser.Store.{NmeaParser}
use nmea_parser.Message.{ParsedMessage}
use nmea_parser.Gnss.Libraries.{Libraries}
use nmea_parser.Gnss.Data.{GnssMessage}
use nmea_parser.Gnss.Coordinates.Digits.{IsDegrees}
use nmea_parser.Gnss.Dispatch.{gnss_message, dispatch_gnss}
use nmea_parser.Gnss.Gga.Printed.{GgaText, gga_fields, read_fix, handle-printed}
use nmea_parser.Gnss.Fields.Printed.{Reads}
use nmea_parser.Parser.Frame.{before_comma, all_type_chars, checksum, show_hex}
use nmea_parser.Parser.Talker.{NavigationSystem, identify}
use nmea_parser.Parser.Dispatch.{parse_sentence}
use nmea_parser.Gnss.Times.Printed.{three}
use nmea_parser.Parser.Dispatch.Printed.{IsGpsType, parse_sentence-printed}

-- The sentence without its checksum.
abbrev pub fix_sentence : GgaText → Text
fix_sentence g = join b',' (codes "$GPGGA") (gga_fields g)

fix-IsGpsType : IsGpsType (codes "$GPGGA") (codes "$GGA")
unfolding before_comma all_type_chars identify get_range byte_len split_at
fix-IsGpsType = record {
  marked = λ rest. refl;
  accepted = λ rest. refl;
  identified = refl;
  no_message = refl;
  no_own_message = refl;
}

module _ {F S T Z : Type 0} (f64 : F64 F) (chrono : Chrono T) (libs : Libraries S Z) (checks : Bool)
    (self : NmeaParser T) (g : GgaText) where
  -- A GGA sentence that is put together from its fields, none with a comma or a star, and its
  -- checksum is answered by all of them, and leaves the store as it is, whatever stands in front of it
  -- (no mark) and behind the checksum (no star): where chrono gives the first second of 2000 and the
  -- time of day on that day, of numbers below 100, the coordinates are degrees, the counts and the
  -- station fit their widths, and the library reads the texts of the other numbers, none empty.
  pub parse_sentence-fix :
      (pre tail : Text) (now t : T) (hdop alt separation age : F)
      → Lacks b'$' pre × Lacks b'!' pre
      → Lacks b'*' tail
      → AllLack b',' (codes "$GPGGA") (gga_fields g)
      → AllLack b'*' (codes "$GPGGA") (gga_fields g)
      → chrono.with_ymd_and_hms (pos 2000) 1 1 0 0 0 ≡ some now
      → chrono.ymd_and_hms_nano
          (chrono.year now)
          (chrono.month now)
          (chrono.day now)
          g.hour
          g.minute
          g.second
          0
        ≡ some t
      → (g.hour < 100) × (g.minute < 100) × (g.second < 100)
      → IsDegrees 4 g.lat × IsDegrees 5 g.lon
      → (g.quality < 2 ^ 8) × (g.satellites < 2 ^ 8) × (g.station < 2 ^ 16)
      → Reads f64.parse g.hdop hdop
        × Reads f64.parse g.altitude alt
        × Reads f64.parse g.separation separation
        × Reads f64.parse g.age age
      → let s = fix_sentence g in
        parse_sentence f64 chrono libs checks self
          (pre ++ (s ++ (b'*' ∷ (show_hex (checksum s) ++ tail))))
        ≡ (
          self,
          ok (
              ParsedMessage.gnss
                (GnssMessage.gga (read_fix f64 g NavigationSystem.gps t hdop alt separation age))),
        )
  unfolding dispatch_gnss gnss_message
  parse_sentence-fix pre tail now t hdop alt separation age front no_star commas stars clock time
        hms degrees small reads =
      parse_sentence-printed f64 chrono libs checks self (codes "$GPGGA") (codes "$GGA")
        fix-IsGpsType (three g.hour g.minute g.second []) (drop 1 (gga_fields g)) pre tail front
        no_star stars
      ∙ rw (
          handle-printed {S = S} {Z = Z} f64 chrono g NavigationSystem.gps now t hdop alt separation
            age commas clock time hms degrees small reads)
