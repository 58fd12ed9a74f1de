-- ===== src/Gnss/Dispatch.antt =====
-- lib.rs: the arms of `parse_sentence` for the GNSS sentences, by their type.
use nmea_parser.Common.{Bool, if◌then◌else◌, Outcome, ok, err, ◌>>=◌, unsupported_sentence_type}
use nmea_parser.Text.{Text, codes, eq_text}
use nmea_parser.Numbers.{F64}
use nmea_parser.Chrono.{Chrono}
use nmea_parser.Store.{NmeaParser}
use nmea_parser.Message.{ParsedMessage}
use nmea_parser.Parser.Talker.{NavigationSystem}
use nmea_parser.Gnss.Libraries.{Libraries}
use nmea_parser.Gnss.Data.{GnssMessage}
use nmea_parser.Gnss.Gsv
use nmea_parser.Gnss.Gga
use nmea_parser.Gnss.Rmc
use nmea_parser.Gnss.Gns
use nmea_parser.Gnss.Gsa
use nmea_parser.Gnss.Vtg
use nmea_parser.Gnss.Gll
use nmea_parser.Gnss.Alm
use nmea_parser.Gnss.Dtm
use nmea_parser.Gnss.Mss
use nmea_parser.Gnss.Stn
use nmea_parser.Gnss.Vbw
use nmea_parser.Gnss.Zda
use nmea_parser.Gnss.Dpt
use nmea_parser.Gnss.Dbs
use nmea_parser.Gnss.Mtw
use nmea_parser.Gnss.Vhw
use nmea_parser.Gnss.Hdt
use nmea_parser.Gnss.Mwv

module _ {F S T Z : Type 0} (f64 : F64 F) (chrono : Chrono T) (libs : Libraries S Z)
    (overflow_checks : Bool) where
  -- The handlers that have no store.
  unfoldable pub gnss_message : Text → Text → NavigationSystem → Outcome (GnssMessage F S T Z)
  gnss_message sentence_type sentence nav_system =
      if eq_text sentence_type (codes "$GGA")
      then Gga.handle f64 chrono sentence nav_system
      else if eq_text sentence_type (codes "$RMC")
      then Rmc.handle f64 chrono sentence nav_system
      else if eq_text sentence_type (codes "$GNS")
      then Gns.handle f64 chrono sentence nav_system
      else if eq_text sentence_type (codes "$GSA")
      then Gsa.handle f64 sentence nav_system
      else if eq_text sentence_type (codes "$VTG")
      then Vtg.handle f64 sentence nav_system
      else if eq_text sentence_type (codes "$GLL")
      then Gll.handle f64 chrono sentence nav_system
      else if eq_text sentence_type (codes "$ALM")
      then Alm.handle libs sentence nav_system
      else if eq_text sentence_type (codes "$DTM")
      then Dtm.handle f64 sentence nav_system
      else if eq_text sentence_type (codes "$MSS")
      then Mss.handle f64 sentence nav_system
      else if eq_text sentence_type (codes "$STN")
      then Stn.handle sentence nav_system
      else if eq_text sentence_type (codes "$VBW")
      then Vbw.handle f64 sentence nav_system
      else if eq_text sentence_type (codes "$ZDA")
      then Zda.handle f64 chrono libs overflow_checks sentence nav_system
      else if eq_text sentence_type (codes "$DPT")
      then Dpt.handle f64 sentence
      else if eq_text sentence_type (codes "$DBS")
      then Dbs.handle f64 sentence
      else if eq_text sentence_type (codes "$MTW")
      then Mtw.handle f64 sentence
      else if eq_text sentence_type (codes "$VHW")
      then Vhw.handle f64 sentence
      else if eq_text sentence_type (codes "$HDT")
      then Hdt.handle f64 sentence
      else if eq_text sentence_type (codes "$MWV")
      then Mwv.handle f64 sentence
      else err unsupported_sentence_type

  unfoldable pub dispatch_gnss :
      NmeaParser T
      → Text
      → Text
      → NavigationSystem
      → NmeaParser T × Outcome (ParsedMessage F T (GnssMessage F S T Z))
  unfolding gnss_message
  dispatch_gnss self sentence_type sentence nav_system =
      if eq_text sentence_type (codes "$GSV")
      then Gsv.handle libs.parse_f32 overflow_checks sentence nav_system self
      else (self, gnss_message sentence_type sentence nav_system >>= λ g. ok (ParsedMessage.gnss g))
