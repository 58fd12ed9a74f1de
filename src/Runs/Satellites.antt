-- ===== src/Runs/Satellites.antt =====
-- A GSV message of two sentences, and the theorem on its order at it.
use nmea_parser.Common.{
  ℤ, ℕ, zero, suc, ◌≡◌, refl, ◌≢◌, true, Option, none, some, List, [], ◌∷◌, map, ◌==◌,
  if◌then◌else◌, arith, ◌∙◌, ok, Outcome, inl, inr, ap, false, sym,
}
use nmea_parser.Text.{
  Text, codes, split, parse_unsigned, rsplit, byte_len, get_range, split_at, eq_text,
}
use nmea_parser.Store.{NmeaParser, lookup, new}
use nmea_parser.Message.{ParsedMessage}
use nmea_parser.Parser.Talker.{NavigationSystem, identify}
use nmea_parser.Parser.Vdm.Fragments.{fragment}
use nmea_parser.Gnss.Data.{GsvData, GnssMessage}
use nmea_parser.Gnss.Gsv.{make_gsv_key, first_field, numbers, handle, satellites}
use nmea_parser.Gnss.Gsv.Reassembly.{Within, gather}
use nmea_parser.Gnss.Gsv.Order.{among, arrive, handle-any_order}
use nmea_parser.Ais.Types.{Station}
use nmea_parser.Parser.Frame.{frame}
use nmea_parser.Parser.Dispatch.{parse_sentence}
use nmea_parser.Parser.Dispatch.States.{IsSentence, run}
use nmea_parser.Parser.Dispatch.Others.{NotOf}
use nmea_parser.Parser.Dispatch.Satellites.{Arrival, text_of, AllWait, parse_sentence-satellites}
use nmea_parser.Runs.Streams.{fix, fix_framed, fix_identified}
use nmea_parser.Runs.Toys.{Float, Time, floats, calendar, libraries}

abbrev sentence_of : ℕ → Text
sentence_of k =
    if k == 1
    then codes "$GPGSV,2,1,08,03,03,111,00,04,15,270,00,06,01,010,00,13,06,292,00"
    else codes "$GPGSV,2,2,08,14,25,170,00,16,57,208,39,18,67,296,40,19,40,246,"

-- A field that is read as it is written.
abbrev as_text : Text → Option Text
as_text t = some t

empty_store : NmeaParser Time
unfolding new
empty_store = new

of_two : (P : ℕ → Type 0) → P 1 → P 2 → (k : ℕ) → Within 1 2 k → P k
of_two P one two zero w = absurd (omega (arith, w))
of_two P one two (suc zero) w = one
of_two P one two (suc (suc zero)) w = two
of_two P one two (suc (suc (suc k))) w = absurd (omega (arith, w))

prns : List (GsvData Text) → List ℕ
prns [] = []
prns (d ∷ rest) = d.prn_number ∷ prns rest

first_sentence :
    prns (satellites as_text NavigationSystem.gps (sentence_of 1)) ≡ 3 ∷ 4 ∷ 6 ∷ 13 ∷ []
unfolding prns satellites split parse_unsigned
first_sentence = refl

handle-any_order_example :
    let r =
      arrive {F = Float} {Z = ℤ} as_text true NavigationSystem.gps sentence_of empty_store
        (2 ∷ []) in
    let answer = handle as_text {F = Float} {Z = ℤ} true (sentence_of 1) NavigationSystem.gps r.0 in
    (r.1 ≡ map {A = ℕ} (λ k. ok ParsedMessage.incomplete) (2 ∷ []))
    × (answer.1
        ≡ ok (
            ParsedMessage.gnss
              (GnssMessage.gsv (gather as_text NavigationSystem.gps sentence_of 1 2))))
    × ((j : ℕ) → Within 1 2 j → fragment answer.0 (make_gsv_key (codes "$GPGSV") 2 j) ≡ none)
    × ((t : Text)
        → ((j : ℕ) → Within 1 2 j → make_gsv_key (codes "$GPGSV") 2 j ≢ t)
        → fragment answer.0 t ≡ fragment empty_store t)
    × (answer.0.saved_vsds ≡ empty_store.saved_vsds)
unfolding empty_store lookup numbers split parse_unsigned
handle-any_order_example =
    handle-any_order as_text true NavigationSystem.gps (codes "$GPGSV") 2 sentence_of (omega arith)
      1 (omega arith, omega arith)
      (of_two (λ k. numbers (split b',' (sentence_of k)) ≡ ok (2, k)) refl refl)
      (of_two (λ k. first_field (split b',' (sentence_of k)) ≡ codes "$GPGSV") refl refl) (2 ∷ [])
      empty_store refl (λ k m. ground (arith, m))
      (of_two (λ j. j ≢ 1 → among j (2 ∷ []) ≡ true) (λ ne. absurd (ne refl)) (λ ne. refl)) refl

arrived-IsSentence :
    (k : ℕ)
    → Within 1 2 k
    → IsSentence (sentence_of k) (codes "$GSV") (sentence_of k) NavigationSystem.gps
unfolding frame rsplit byte_len get_range split_at identify
arrived-IsSentence =
    of_two (λ k. IsSentence (sentence_of k) (codes "$GSV") (sentence_of k) NavigationSystem.gps)
      (codes "$GPGSV", Station.other, refl, refl) (codes "$GPGSV", Station.other, refl, refl)

ok_injective : {A : Type 0} {a b : A} → ◌≡◌ {A = Outcome A} (ok a) (ok b) → a ≡ b
ok_injective e = cc

fix-NotOf : NotOf (codes "$GPGSV") 2 fix
fix-NotOf sentence nav_system (full_type, s, ef, ei) of_type num e =
    let read : full_type ≡ codes "$GPGGA" =
      ap (λ (f : Text × Text). f.1) (ok_injective (sym ef ∙ fix_framed)) in
    let type : codes "$GGA" ≡ codes "$GSV" = cc (fix_identified, ei, read) in
    let alike : true ≡ false = ap (λ u. eq_text u (codes "$GGA")) type in absurd cc

-- The second sentence comes first, and a fix between the two.
parse_sentence-satellites_example :
    let front : List Arrival = inr fix ∷ inl 2 ∷ inr fix ∷ [] in
    let before = run floats calendar libraries true empty_store (map (text_of sentence_of) front) in
    let answer = parse_sentence floats calendar libraries true before (sentence_of 1) in
    AllWait floats calendar libraries true sentence_of empty_store front
    × (answer.1
        ≡ ok (
            ParsedMessage.gnss
              (GnssMessage.gsv (gather as_text NavigationSystem.gps sentence_of 1 2))))
    × ((j : ℕ) → Within 1 2 j → fragment answer.0 (make_gsv_key (codes "$GPGSV") 2 j) ≡ none)
unfolding empty_store lookup numbers split parse_unsigned
parse_sentence-satellites_example =
    parse_sentence-satellites floats calendar libraries true sentence_of NavigationSystem.gps
      (codes "$GPGSV") 2 sentence_of (omega arith) arrived-IsSentence
      (of_two (λ k. numbers (split b',' (sentence_of k)) ≡ ok (2, k)) refl refl)
      (of_two (λ k. first_field (split b',' (sentence_of k)) ≡ codes "$GPGSV") refl refl) 1
      (omega arith, omega arith) (inr fix ∷ inl 2 ∷ inr fix ∷ []) empty_store refl
      (λ k m. ground (arith, m))
      (of_two (λ j. j ≢ 1 → among j (2 ∷ []) ≡ true) (λ ne. absurd (ne refl)) (λ ne. refl))
      (fix-NotOf, (fix-NotOf, tt)) refl
