-- ===== src/Runs/Vessels.antt =====
-- The two parts of a vessel's static data at concrete sentences.
use nmea_parser.Common.{
  ◌≡◌, ◌≢◌, refl, sym, ap, ◌∙◌, Bool, true, false, Option, none, some, [], ◌∷◌, ok,
}
use nmea_parser.Text.{
  Text, codes, rsplit, byte_len, get_range, split_at, split, parse_unsigned, digits_value, eq_text,
}
use nmea_parser.Text.Laws.{eq_text_refl}
use nmea_parser.Bits.{Bits, parse_payload, six_bits, pick_u64}
use nmea_parser.Ais.Fields.{pick_u32}
use nmea_parser.Ais.Types.{Station}
use nmea_parser.Ais.Vdm.T24.{static_part}
use nmea_parser.Ais.Vdm.T24.Merge.{part_a, full_report}
use nmea_parser.Ais.Vdm.T24.Pairs.{held}
use nmea_parser.Store.{NmeaParser, lookup}
use nmea_parser.Message.{ParsedMessage}
use nmea_parser.Parser.Frame.{frame}
use nmea_parser.Parser.Talker.{NavigationSystem, identify}
use nmea_parser.Parser.Vdm.{assemble, VdmFields, read_fields}
use nmea_parser.Parser.Vdm.Halves.{vdm_type}
use nmea_parser.Parser.Dispatch.{parse_sentence}
use nmea_parser.Parser.Dispatch.States.{Carries, run}
use nmea_parser.Parser.Dispatch.Vessels.{CompletesHere}
use nmea_parser.Parser.Dispatch.Parts.{CompletesReport, part_code, parse_sentence-parts}
use nmea_parser.Runs.Bytes.{empty_store}
use nmea_parser.Runs.Streams.{fix, fix_framed, fix_identified}
use nmea_parser.Runs.Toys.{Time, payload_bits, floats, calendar, libraries}

abbrev part_payload : Bool → Text
part_payload false = codes "H42O55i18tMET00000000000000"
part_payload true = codes "H42O55lti4hhhilD3nink000?050"

abbrev part_sentence : Bool → Text
part_sentence false = codes "!AIVDM,1,1,,A,H42O55i18tMET00000000000000,2*6D"
part_sentence true = codes "!AIVDM,1,1,,A,H42O55lti4hhhilD3nink000?050,0*40"

abbrev part_bits : Bool → Bits
part_bits b = payload_bits (part_payload b)

abbrev part_fields : Bool → VdmFields
part_fields b = record {
  fragment_count = 1;
  fragment_number = 1;
  message_id = none;
  radio_channel_code = some (codes "A");
  payload_string = part_payload b;
}

part-Carries : (b : Bool) → Carries (part_sentence b) false Station.mobile_station (part_fields b)
unfolding frame rsplit byte_len get_range split_at identify read_fields split parse_unsigned
    digits_value
part-Carries false = (_, NavigationSystem.other, refl, refl, refl)
part-Carries true = (_, NavigationSystem.other, refl, refl, refl)

part-assembled :
    (self : NmeaParser Time) (b : Bool)
    → (assemble true self (codes "!VDM") (part_fields b)).1 ≡ ok (some (part_bits b))
unfolding assemble parse_payload six_bits
part-assembled self false = refl
part-assembled self true = refl

part-type : (b : Bool) → pick_u64 (part_bits b) 0 6 ≡ 24
unfolding pick_u64 parse_payload six_bits
part-type false = refl
part-type true = refl

part-code : (b : Bool) → pick_u64 (part_bits b) 38 2 ≡ part_code b
unfolding pick_u64 parse_payload six_bits
part-code false = refl
part-code true = refl

part-vessel : (b : Bool) → pick_u32 (part_bits b) 8 30 ≡ 271041815
unfolding pick_u64 parse_payload six_bits
part-vessel false = refl
part-vessel true = refl

part-CompletesReport :
    (self : NmeaParser Time) (b : Bool)
    → CompletesReport floats calendar libraries true false 271041815 self
        (part_sentence b)
        (part_bits b)
part-CompletesReport self b =
    (Station.mobile_station, part_fields b, part-Carries b, part-assembled self b, part-type b)

no_message_type : (own : Bool) → eq_text (codes "$GGA") (vdm_type own) ≡ false
no_message_type false = refl
no_message_type true = refl

self_equal : (own : Bool) → eq_text (vdm_type own) (vdm_type own) ≡ true
self_equal own = eq_text_refl (vdm_type own)

fix_completes_nothing :
    (self : NmeaParser Time) (bv : Bits)
    → CompletesHere floats calendar libraries true self fix bv
    → pick_u32 bv 8 30 ≢ 271041815
fix_completes_nothing self bv (own, s, fields, (framed, nav_system, ef, ei, er), e) p =
    let same : (
      codes "$GPGGA,123519,4807.038,N,01131.000,E,1,08,0.9,545.4,M,46.9,M,,",
      codes "$GPGGA",
    )
        ≡ framed =
      cc (fix_framed, ef) in
    let type : codes "$GGA" ≡ vdm_type own = cc (fix_identified, ei, same) in
    let alike : true ≡ false =
      sym (self_equal own) ∙ ap (λ u. eq_text u (vdm_type own)) (sym type) ∙ no_message_type own in
    absurd cc

held-empty_store : held empty_store 271041815 ≡ none
unfolding empty_store lookup
held-empty_store = refl

-- Part B comes first, and a fix between the two.
parse_sentence-parts_example :
    let once = parse_sentence floats calendar libraries true empty_store (part_sentence true) in
    let between = run floats calendar libraries true once.0 (fix ∷ []) in
    (call_sign : Option Text) × (vendor : Text) × (name : Option Text) × (static_part {T = Time}
        (part_bits true)
        false
        true
      ≡ ok (full_report (part_bits true) false 271041815 call_sign vendor none))
    × (static_part {T = Time} (part_bits false) false false ≡ ok (part_a false 271041815 name))
    × (once.1 ≡ ok ParsedMessage.incomplete)
    × ((parse_sentence floats calendar libraries true between (part_sentence false)).1
        ≡ ok (
            ParsedMessage.vessel_static_data
              (full_report (part_bits true) false 271041815 call_sign vendor name)))
parse_sentence-parts_example =
    parse_sentence-parts floats calendar libraries true false 271041815 part_bits true empty_store
      (part_sentence true) (part_sentence false) (fix ∷ []) part-code part-vessel held-empty_store
      (part-CompletesReport empty_store true) (fix_completes_nothing _, tt)
      (part-CompletesReport _ false)
