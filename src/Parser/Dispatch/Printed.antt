-- ===== src/Parser/Dispatch/Printed.antt =====
-- A sentence of a GPS receiver from its fields and its checksum, to the handler of its type.
use nmea_parser.Common.{◌≡◌, refl, ◌∙◌, Bool, false, List, ◌∷◌, ◌++◌, ok}
use nmea_parser.Text.{Text, Lacks, codes, eq_text}
use nmea_parser.Text.Joined.{join, AllLack, join-Lacks}
use nmea_parser.Numbers.{F64}
use nmea_parser.Chrono.{Chrono}
use nmea_parser.Store.{NmeaParser}
use nmea_parser.Ais.Types.{Station}
use nmea_parser.Gnss.Libraries.{Libraries}
use nmea_parser.Gnss.Dispatch.{dispatch_gnss}
use nmea_parser.Parser.Frame.{checksum, show_hex}
use nmea_parser.Parser.Frame.Sealed.{Marked, frame-plain, typed}
use nmea_parser.Parser.Talker.{NavigationSystem, identify}
use nmea_parser.Parser.Dispatch.{parse_sentence}
use nmea_parser.Parser.Dispatch.Sealed.{parse_sentence-sealed}

-- A sentence type behind the talker of GPS: `name` with it, `short` without it.
pub record IsGpsType (name short : Text) : Type 0 where
  pub marked : (rest : Text) → Marked (name ++ rest)
  pub accepted : (rest : Text) → typed (name ++ (b',' ∷ rest)) ≡ ok (name ++ (b',' ∷ rest), name)
  pub identified : identify name ≡ ok (NavigationSystem.gps, Station.other, short)
  pub no_message : eq_text short (codes "!VDM") ≡ false
  pub no_own_message : eq_text short (codes "!VDO") ≡ false

module _ {F S T Z : Type 0} (f64 : F64 F) (chrono : Chrono T) (libs : Libraries S Z) (checks : Bool)
    (self : NmeaParser T) (name short : Text) (h : IsGpsType name short) (field : Text)
    (fields : List Text) where
  parse_sentence-plain :
      Lacks b'*' (join b',' name (field ∷ fields))
      → parse_sentence f64 chrono libs checks self (join b',' name (field ∷ fields))
        ≡ dispatch_gnss f64 chrono libs checks self short
            (join b',' name (field ∷ fields))
            NavigationSystem.gps
  unfolding parse_sentence
  parse_sentence-plain plain = rw (
    frame-plain (join b',' name (field ∷ fields)) (h.marked _) plain,
    h.accepted (join b',' field fields),
    h.identified,
    h.no_message,
    h.no_own_message,
  )

  -- The sentence with its checksum, whatever stands in front of it and behind the checksum.
  pub parse_sentence-printed :
      (pre tail : Text)
      → Lacks b'$' pre × Lacks b'!' pre
      → Lacks b'*' tail
      → AllLack b'*' name (field ∷ fields)
      → let s = join b',' name (field ∷ fields) in
        parse_sentence f64 chrono libs checks self
          (pre ++ (s ++ (b'*' ∷ (show_hex (checksum s) ++ tail))))
        ≡ dispatch_gnss f64 chrono libs checks self short s NavigationSystem.gps
  parse_sentence-printed pre tail front no_star stars =
      let plain = join-Lacks b'*' b',' name (field ∷ fields) refl stars in
      parse_sentence-sealed f64 chrono libs checks self pre (join b',' name (field ∷ fields)) tail
        front.0 front.1 (h.marked _) no_star plain
      ∙ parse_sentence-plain plain
