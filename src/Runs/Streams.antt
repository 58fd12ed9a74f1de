-- ===== src/Runs/Streams.antt =====
-- Streams of sentences and whole sentences at concrete inputs.
use nmea_parser.Common.{
  ℕ, ◌+◌, ◌≤◌, ◌≡◌, ◌≢◌, refl, sym, ap, ◌∙◌, Bool, true, false, none, some, [], ◌∷◌, ok, ℤ, arith,
}
use nmea_parser.Text.{
  Text, codes, rsplit, byte_len, get_range, split_at, split, parse_unsigned, digits_value, eq_text,
}
use nmea_parser.Bits.{Bits, parse_payload, six_bits, pick_u64}
use nmea_parser.Ais.Fields.{pick_u32}
use nmea_parser.Ais.Vdm.T10
use nmea_parser.Parser.Dispatch.Kinds.{is_kind_of, sender}
use nmea_parser.Parser.Dispatch.Senders.{parse_sentence-sender}
use nmea_parser.Store.{lookup, pull_string}
use nmea_parser.Message.{ParsedMessage}
use nmea_parser.Ais.Types.{Station}
use nmea_parser.Gnss.Data.{GnssMessage}
use nmea_parser.Parser.Frame.{frame}
use nmea_parser.Parser.Talker.{NavigationSystem, identify}
use nmea_parser.Parser.Vdm.{assemble, VdmFields, read_fields, to_some}
use nmea_parser.Parser.Vdm.Fragments.{fragment}
use nmea_parser.Parser.Vdm.Halves.{half_key, vdm_type}
use nmea_parser.Parser.Vdm.Interleaved.{in_order}
use nmea_parser.Parser.Dispatch.{on_bits, dispatch_message, parse_sentence}
use nmea_parser.Ais.Vdm.T1t2t3.Layout as Position
use nmea_parser.Parser.Dispatch.Growth.{entries, entries-run}
use nmea_parser.Parser.Dispatch.States.{Carries, run}
use nmea_parser.Parser.Dispatch.Interleaved.{
  HoldsHalf, HoldsNoHalf, AllHoldNoHalf, parse_sentence-interleaved,
}
use nmea_parser.Runs.Bytes.{empty_store}
use nmea_parser.Runs.Toys.{Time, Float, payload_bits, floats, calendar, libraries}

abbrev first_half : Text
first_half =
    codes "!AIVDM,2,1,1,A,55?MbV02;H;s<HtKR20EHE:0@T4@Dn2222222216L961O5Gf0NSQEp6ClRp8,0*1C"

abbrev second_half : Text
second_half = codes "!AIVDM,2,2,1,A,88888888880,2*25"

abbrev pub fix : Text
fix = codes "$GPGGA,123519,4807.038,N,01131.000,E,1,08,0.9,545.4,M,46.9,M,,*47"

abbrev of_half : ℕ → Text → VdmFields
of_half number payload = record {
  fragment_count = 2;
  fragment_number = number;
  message_id = some 1;
  radio_channel_code = some (codes "A");
  payload_string = payload;
}

abbrev payload_one : Text
payload_one = codes "55?MbV02;H;s<HtKR20EHE:0@T4@Dn2222222216L961O5Gf0NSQEp6ClRp8"

abbrev payload_two : Text
payload_two = codes "88888888880"

holds_first : HoldsHalf first_half false Station.mobile_station 1 (codes "A") false payload_one
unfolding frame rsplit byte_len get_range split_at identify read_fields split parse_unsigned
    digits_value
holds_first = (
  of_half 1 payload_one,
  (_, NavigationSystem.other, refl, refl, refl),
  (refl, refl, refl),
  refl,
  refl,
)

holds_second : HoldsHalf second_half false Station.mobile_station 1 (codes "A") true payload_two
unfolding frame rsplit byte_len get_range split_at identify read_fields split parse_unsigned
    digits_value
holds_second = (
  of_half 2 payload_two,
  (_, NavigationSystem.other, refl, refl, refl),
  (refl, refl, refl),
  refl,
  refl,
)

-- A sentence of another type.
other_type :
    (text t : Text) (framed : Text × Text) (nav_system : NavigationSystem) (s : Station) (i : ℕ)
    (r : Text)
    → frame text ≡ ok framed
    → identify framed.1 ≡ ok (nav_system, s, t)
    → eq_text t (codes "!VDM") ≡ false
    → HoldsNoHalf false i r text
other_type text t framed nav_system s i r ef ei ne s' b payload
      (fields, (framed', nav_system', ef', ei', er), half, e, p) =
    let same : framed ≡ framed' = cc (ef, ef') in
    let type : t ≡ vdm_type false = cc (ei, ei', same) in
    let wrong : false ≡ true = sym ne ∙ ap (λ u. eq_text u (codes "!VDM")) type in absurd cc

pub fix_framed :
    frame fix
    ≡ ok (codes "$GPGGA,123519,4807.038,N,01131.000,E,1,08,0.9,545.4,M,46.9,M,,", codes "$GPGGA")
unfolding frame rsplit byte_len get_range split_at
fix_framed = refl

pub fix_identified :
    identify (codes "$GPGGA") ≡ ok (NavigationSystem.gps, Station.other, codes "$GGA")
unfolding identify byte_len get_range split_at
fix_identified = refl

pub absent : (b : Bool) → fragment empty_store (half_key false 1 (codes "A") b) ≡ none
unfolding empty_store lookup
absent b = refl

pub fix_apart : AllHoldNoHalf false 1 (codes "A") (fix ∷ [])
fix_apart = (
  other_type fix (codes "$GGA") _ NavigationSystem.gps Station.other 1 (codes "A") fix_framed
      fix_identified refl,
  tt,
)

parse_sentence-interleaved_example :
    let once = parse_sentence floats calendar libraries true empty_store first_half in
    let between = run floats calendar libraries true once.0 (fix ∷ []) in
    (once.1 ≡ ok ParsedMessage.incomplete)
    × (parse_sentence floats calendar libraries true between second_half
        ≡ on_bits
            (
              (pull_string between (half_key false 1 (codes "A") false)).0,
              to_some (parse_payload true (in_order false payload_one payload_two)),
            )
            (λ self' bv.
              dispatch_message floats calendar true self' bv Station.mobile_station false))
parse_sentence-interleaved_example =
    parse_sentence-interleaved floats calendar libraries true false 1 (codes "A") empty_store false
      Station.mobile_station Station.mobile_station first_half second_half payload_one payload_two
      (fix ∷ []) holds_first holds_second (absent true) fix_apart

entries-run_example :
    entries (run floats calendar libraries true empty_store (first_half ∷ fix ∷ second_half ∷ []))
    ≤ entries empty_store + 3
entries-run_example =
    entries-run floats calendar libraries true empty_store (first_half ∷ fix ∷ second_half ∷ [])

-- A type 10 message.
abbrev inquiry : Text
inquiry = codes "!AIVDM,1,1,,B,:5MlU41GMK6@,0*6C"

abbrev inquiry_fields : VdmFields
inquiry_fields = record {
  fragment_count = 1;
  fragment_number = 1;
  message_id = none;
  radio_channel_code = some (codes "B");
  payload_string = codes ":5MlU41GMK6@";
}

abbrev inquiry_bits : Bits
inquiry_bits = payload_bits (codes ":5MlU41GMK6@")

abbrev inquiry_message : ParsedMessage Float Time (GnssMessage Float Text Time ℤ)
inquiry_message = ParsedMessage.utc_date_inquiry (record {
  own_vessel = false;
  station = Station.mobile_station;
  source_mmsi = 366814480;
  destination_mmsi = 366832740;
})

inquiry_carried : Carries inquiry false Station.mobile_station inquiry_fields
unfolding frame rsplit byte_len get_range split_at identify read_fields split parse_unsigned
    digits_value
inquiry_carried = (_, NavigationSystem.other, refl, refl, refl)

inquiry_assembled :
    (assemble true empty_store (codes "!VDM") inquiry_fields).1 ≡ ok (some inquiry_bits)
unfolding assemble parse_payload six_bits
inquiry_assembled = refl

inquiry_answered :
    (parse_sentence floats calendar libraries true empty_store inquiry).1 ≡ ok inquiry_message
unfolding parse_sentence frame rsplit byte_len get_range split_at identify read_fields split
    parse_unsigned digits_value assemble parse_payload six_bits pick_u64 T10.handle
inquiry_answered = refl

of_type_10 : pick_u64 inquiry_bits 0 6 ≢ 24
unfolding pick_u64 parse_payload six_bits
of_type_10 e = omega (arith, e)

parse_sentence-sender_example :
    (is_kind_of inquiry_message (pick_u64 inquiry_bits 0 6) ≡ true)
    × (sender inquiry_message ≡ some (false, pick_u32 inquiry_bits 8 30))
parse_sentence-sender_example =
    parse_sentence-sender floats calendar libraries true empty_store inquiry false
      Station.mobile_station inquiry_fields inquiry_bits inquiry_message inquiry_carried
      inquiry_assembled of_type_10 inquiry_answered
