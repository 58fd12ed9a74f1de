-- ===== src/Runs/Sentences.antt =====
-- Sentences from end to end.
use nmea_parser.Common.{
  ℤ, arith, ℕ, ◌≡◌, refl, true, Option, none, some, [], ◌∷◌, ◌++◌, Outcome, ok, err, panic,
  invalid_sentence, corrupted_sentence, unsupported_sentence_type,
}
use nmea_parser.Text.{Text, codes, rsplit, byte_len, get_range, split, parse_unsigned, show_u64}
use nmea_parser.Bits.{parse_payload, pick_u64, six_bits, pick_string}
use nmea_parser.Eta.{pick_eta, pick_eta_with_now, complete_eta, choose_eta}
use nmea_parser.Chrono.{parse_valid_utc}
use nmea_parser.Ais.Vdm.T24
use nmea_parser.Ais.Vdm.T25
use nmea_parser.Ais.Vdm.T1t2t3
use nmea_parser.Ais.Vdm.T5
use nmea_parser.Parser.Frame.{frame}
use nmea_parser.Parser.Vdm.{read_fields, assemble, make_fragment_key}
use nmea_parser.Store.{
  NmeaParser, new, push_string, pull_string, strings_count, push_vsd, pull_vsd, reset,
}
use nmea_parser.Message.{ParsedMessage}
use nmea_parser.Parser.Talker.{NavigationSystem, identify}
use nmea_parser.Parser.Talker.Proprietary.{identify-proprietary}
use nmea_parser.Ais.Types.{Station}
use nmea_parser.Parser.Dispatch.{parse_sentence}
use nmea_parser.Runs.Toys.{Float, Time, floats, calendar, libraries}
use nmea_parser.Gnss.Data.{GnssMessage}

abbrev Message : Type 0
Message = ParsedMessage Float Time (GnssMessage Float Text Time ℤ)

run : NmeaParser Time → Text → NmeaParser Time × Outcome Message
unfolding parse_sentence frame rsplit byte_len get_range identify read_fields split parse_unsigned
    assemble parse_payload pick_u64 six_bits pick_string T1t2t3.handle T5.handle make_fragment_key
    show_u64 push_string pull_string pick_eta pick_eta_with_now complete_eta choose_eta
    parse_valid_utc T24.handle
run self text = parse_sentence floats calendar libraries true self text

mmsi_of : Outcome Message → Option ℕ
mmsi_of (ok (ParsedMessage.vessel_dynamic_data d)) = some d.mmsi
mmsi_of (ok (ParsedMessage.vessel_static_data d)) = some d.mmsi
mmsi_of _ = none

name_of : Outcome Message → Option Text
name_of (ok (ParsedMessage.vessel_static_data d)) = d.name
name_of _ = none

start : NmeaParser Time
unfolding new
start = new

class_a_report :
    mmsi_of (run start (codes "!AIVDM,1,1,,A,15RTgt0PAso;90TKcjM8h6g208CQ,0*4A")).1 ≡ some 371798000
unfolding run start mmsi_of
class_a_report = refl

wrong_checksum :
    (run start (codes "!AIVDM,1,1,,A,15RTgt0PAso;90TKcjM8h6g208CR,0*4A")).1 ≡ err corrupted_sentence
unfolding run start
wrong_checksum = refl

split_character : (run start (codes "$A,*a" ++ (0xe9 ∷ []))).1 ≡ panic
unfolding run start
split_character = refl

half_of_voyage : Text
half_of_voyage =
    codes "!AIVDM,2,1,1,A,55?MbV02;H;s<HtKR20EHE:0@T4@Dn2222222216L961O5Gf0NSQEp6ClRp8,0*1C"

voyage_in_two :
    mmsi_of (run (run start half_of_voyage).0 (codes "!AIVDM,2,2,1,A,88888888880,2*25")).1
    ≡ some 351759000
unfolding run start mmsi_of half_of_voyage
voyage_in_two = refl

voyage_name :
    name_of (run (run start half_of_voyage).0 (codes "!AIVDM,2,2,1,A,88888888880,2*25")).1
    ≡ some (codes "EVER DIADEM")
unfolding run start name_of half_of_voyage
voyage_name = refl

-- Type 25, six bits long.
six_bit_message : (run start (codes "!AIVDM,1,1,,A,I,0")).1 ≡ panic
unfolding run start T25.handle T25.slice_from
six_bit_message = refl

no_mark : (run start (codes "AIVDM,1,1,,A,I,0")).1 ≡ err invalid_sentence
unfolding run start
no_mark = refl

unknown_type : (run start (codes "$GPXYZ,1")).1 ≡ err unsupported_sentence_type
unfolding run start
unknown_type = refl

stored_fragments : strings_count (run start half_of_voyage).0 ≡ 1
unfolding run start half_of_voyage strings_count
stored_fragments = refl

reset_fragments : strings_count (reset (run start half_of_voyage).0) ≡ 0
unfolding run start half_of_voyage strings_count reset
reset_fragments = refl

part_a_name :
    name_of
      (run
        (run start (codes "!AIVDM,1,1,,A,H42O55lti4hhhilD3nink000?050,0*40")).0
        (codes "!AIVDM,1,1,,A,H42O55i18tMET00000000000000,2*6D")).1
    ≡ some (codes "PROGUY")
unfolding run start name_of T24.static_part T24.respond pull_vsd push_vsd T24.merge
part_a_name = refl

identify-proprietary_example :
    identify (codes "$PGRME") ≡ ok (NavigationSystem.proprietary, Station.other, codes "$RME")
identify-proprietary_example =
    identify-proprietary b'G' b'R' b'M' b'E' (omega arith) (omega arith) (omega arith) (omega arith)
