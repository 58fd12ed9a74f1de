-- ===== src/Runs/Histories.antt =====
-- The theorems on the states of a parser and on its panics at concrete sentences.
use nmea_parser.Common.{
  ℕ, ◌<◌, ◌≡◌, ◌⊎◌, ◌↔◌, refl, true, false, none, some, [], ◌∷◌, ◌++◌, ok, panic, arith,
}
use nmea_parser.Text.{Text, codes, rsplit, byte_len, get_range, split, parse_unsigned}
use nmea_parser.Bits.{Bits, parse_payload, pick_u64, six_bits}
use nmea_parser.Store.{NmeaParser, new}
use nmea_parser.Message.{ParsedMessage}
use nmea_parser.Ais.Data.{VesselStaticData}
use nmea_parser.Ais.Fields.{pick_u32}
use nmea_parser.Ais.Types.{Station}
use nmea_parser.Ais.Vdm.T24
use nmea_parser.Ais.Vdm.T25
use nmea_parser.Parser.Frame.{shed_prefix, frame}
use nmea_parser.Parser.Frame.Cut.{IsCutAtTwo, frame-panics}
use nmea_parser.Parser.Talker.{identify}
use nmea_parser.Parser.Vdm.{read_fields, assemble}
use nmea_parser.Parser.Vdm.Fragments.{half}
use nmea_parser.Parser.Vdm.Exclusive.{Exclusive}
use nmea_parser.Parser.Vdm.Progress.{assemble-progress}
use nmea_parser.Parser.Dispatch.{parse_sentence}
use nmea_parser.Parser.Dispatch.Histories.{Reachable, Reachable-Exclusive, Reachable-handle_t24}
use nmea_parser.Parser.Dispatch.Safety.{Completes, IsCut, parse_sentence_panics}
use nmea_parser.Runs.Toys.{Float, Time, floats, calendar, libraries, payload_bits}

abbrev half_of_voyage : Text
half_of_voyage =
    codes "!AIVDM,2,1,1,A,55?MbV02;H;s<HtKR20EHE:0@T4@Dn2222222216L961O5Gf0NSQEp6ClRp8,0*1C"

-- The state of a new parser after one sentence, and how it is reached.
abbrev after : Text → NmeaParser Time
after text = (parse_sentence floats calendar libraries true new text).0

abbrev after_one : (text : Text) → Reachable floats calendar libraries true (after text)
after_one text = Reachable.sentence text Reachable.start

Reachable-Exclusive_example : Exclusive (after half_of_voyage)
Reachable-Exclusive_example =
    Reachable-Exclusive floats calendar libraries true (after half_of_voyage)
      (after_one half_of_voyage)

abbrev part_a : Text
part_a = codes "!AIVDM,1,1,,A,H42O55lti4hhhilD3nink000?050,0*40"

abbrev part_b : Bits
part_b = payload_bits (codes "H42O55i18tMET00000000000000")

of_part_b : pick_u64 part_b 38 2 < 2
unfolding pick_u64 parse_payload six_bits
of_part_b = omega arith

Reachable-handle_t24_example :
    ((T24.handle {F = Float} {G = ℕ} part_b Station.other (after part_a) false).1
      ≡ ok ParsedMessage.incomplete)
    ⊎ ((v : VesselStaticData Time) × ((T24.handle {F = Float} {G = ℕ} part_b Station.other
            (after part_a)
            false).1
          ≡ ok (ParsedMessage.vessel_static_data v))
        × (v.mmsi ≡ pick_u32 part_b 8 30))
Reachable-handle_t24_example =
    Reachable-handle_t24 floats calendar libraries true ℕ (after part_a) part_b Station.other false
      (after_one part_a) of_part_b

empty_store : NmeaParser Time
unfolding new
empty_store = new

-- Type 25, six bits long.
abbrev short_sentence : Text
short_sentence = codes "!AIVDM,1,1,,A,I,0"

short_sentence_panics :
    (parse_sentence floats calendar libraries false empty_store short_sentence).1 ≡ panic
unfolding parse_sentence frame rsplit byte_len get_range identify read_fields split parse_unsigned
    assemble parse_payload pick_u64 six_bits T25.handle T25.slice_from
short_sentence_panics = refl

parse_sentence_panics_example :
    (frame short_sentence ≡ panic)
    ⊎ ((bv : Bits) × Completes empty_store short_sentence bv × IsCut bv)
parse_sentence_panics_example =
    parse_sentence_panics floats calendar libraries (744000, 0) refl (751440, 0) refl empty_store
      short_sentence short_sentence_panics

-- `$A,*aé`.
abbrev split_character : Text
split_character = codes "$A,*a" ++ (0xe9 ∷ [])

shed_split_character : shed_prefix split_character ≡ some (codes "$A," ++ (b'*' ∷ b'a' ∷ 0xe9 ∷ []))
unfolding shed_prefix
shed_split_character = refl

frame-panics_example : (frame split_character ≡ panic) ↔ IsCutAtTwo (b'a' ∷ 0xe9 ∷ [])
frame-panics_example =
    frame-panics split_character (codes "$A,") (b'a' ∷ 0xe9 ∷ []) (refl, (refl, tt))
      shed_split_character

abbrev IsAnswered : Text → Text → Type 0
IsAnswered p1 p2 =
    let first = assemble false empty_store (codes "!VDM") (half 7 none 1 p1) in
    let then_second = assemble false first.0 (codes "!VDM") (half 7 none 2 p2) in
    let second = assemble false empty_store (codes "!VDM") (half 7 none 2 p2) in
    let then_first = assemble false second.0 (codes "!VDM") (half 7 none 1 p1) in
    ((bv : Bits) × ((first.1 ≡ ok (some bv))
        ⊎ ((first.1 ≡ ok none) × (then_second.1 ≡ ok (some bv)))))
    × ((bv : Bits) × ((second.1 ≡ ok (some bv))
          ⊎ ((second.1 ≡ ok none) × (then_first.1 ≡ ok (some bv)))))

assemble-progress_example : IsAnswered (codes "5w") (codes "8")
assemble-progress_example =
    assemble-progress empty_store (codes "!VDM") 7 none (codes "5w") (codes "8")
