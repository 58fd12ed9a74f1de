-- ===== src/Parser/Dispatch/Satellites.antt =====
-- The sentences of a GSV message in any order, with any other sentences between them.
use nmea_parser.Common.{
  ℕ, ◌+◌, ◌^◌, ◌<◌, ◌≡◌, refl, ◌∙◌, ◌≢◌, ◌⊎◌, Bool, true, false, none, some, List, [], ◌∷◌, map,
  Bool-cases, inl, inr, arith, ok, ==_iff,
}
use nmea_parser.Text.{Text, codes, split, Lacks}
use nmea_parser.Numbers.{F64}
use nmea_parser.Chrono.{Chrono}
use nmea_parser.Store.{NmeaParser}
use nmea_parser.Message.{ParsedMessage}
use nmea_parser.Parser.Talker.{NavigationSystem}
use nmea_parser.Parser.Vdm.Fragments.{fragment}
use nmea_parser.Gnss.Libraries.{Libraries}
use nmea_parser.Gnss.Data.{GnssMessage}
use nmea_parser.Gnss.Gsv.{make_gsv_key, first_field, numbers}
use nmea_parser.Gnss.Gsv.Reassembly.{Within, gather}
use nmea_parser.Gnss.Gsv.Order.{among, arrive-front, handle-last}
use nmea_parser.Gnss.Gsv.Exclusive.{first_field-split-Lacks}
use nmea_parser.Parser.Dispatch.{parse_sentence}
use nmea_parser.Parser.Dispatch.States.{IsSentence, run}
use nmea_parser.Parser.Dispatch.Others.{NotOf, parse_sentence-gsv, fragment-NotOf}

same_head : {A : Type 0} {a b : A} {xs ys : List A} → a ∷ xs ≡ b ∷ ys → a ≡ b
same_head e = cc

-- What comes in: a sentence of the message, by its number, or any other.
abbrev pub Arrival : Type 0
Arrival = ℕ ⊎ Text

abbrev pub text_of : (ℕ → Text) → Arrival → Text
text_of texts (inl k) = texts k
text_of texts (inr text) = text

abbrev pub numbers_of : List Arrival → List ℕ
numbers_of [] = []
numbers_of (inl k ∷ rest) = k ∷ numbers_of rest
numbers_of (inr text ∷ rest) = numbers_of rest

-- The others are no sentences of the message.
abbrev pub OthersNotOf : Text → ℕ → List Arrival → Type 0
OthersNotOf msg_type msg_count [] = Unit {0}
OthersNotOf msg_type msg_count (inl k ∷ rest) = OthersNotOf msg_type msg_count rest
OthersNotOf msg_type msg_count (inr text ∷ rest) =
    NotOf msg_type msg_count text × OthersNotOf msg_type msg_count rest

module _ {F S T Z : Type 0} (f64 : F64 F) (chrono : Chrono T) (libs : Libraries S Z) (checks : Bool)
    (texts : ℕ → Text) where
  -- Each sentence of the message is answered by no message.
  abbrev pub AllWait : NmeaParser T → List Arrival → Type 0
  AllWait self [] = Unit {0}
  AllWait self (inl k ∷ rest) =
      ((parse_sentence f64 chrono libs checks self (texts k)).1 ≡ ok ParsedMessage.incomplete)
      × AllWait (parse_sentence f64 chrono libs checks self (texts k)).0 rest
  AllWait self (inr text ∷ rest) = AllWait (parse_sentence f64 chrono libs checks self text).0 rest

  module _ (nav_system : NavigationSystem) (msg_type : Text) (msg_count : ℕ) (sentences : ℕ → Text)
      (small : msg_count + 1 < 2 ^ 32)
      (framed : (k : ℕ)
        → Within 1 msg_count k
        → IsSentence (texts k) (codes "$GSV") (sentences k) nav_system)
      (numbered : (k : ℕ)
        → Within 1 msg_count k
        → numbers (split b',' (sentences k)) ≡ ok (msg_count, k))
      (one_type : (k : ℕ)
        → Within 1 msg_count k
        → first_field (split b',' (sentences k)) ≡ msg_type)
      (last : ℕ) (last_within : Within 1 msg_count last) where
    plain : Lacks b',' msg_type
    plain = rw (← one_type last last_within) (first_field-split-Lacks (sentences last))

    -- What holds behind the sentences in front of the last one.
    arrived :
        (front : List Arrival) (self : NmeaParser T)
        → among last (numbers_of front) ≡ false
        → ((k : ℕ) → among k (numbers_of front) ≡ true → Within 1 msg_count k)
        → OthersNotOf msg_type msg_count front
        → fragment self (make_gsv_key msg_type msg_count last) ≡ none
        → let self' = run f64 chrono libs checks self (map (text_of texts) front) in
          AllWait self front
          × ((j : ℕ)
              → Within 1 msg_count j
              → (among j (numbers_of front) ≡ true)
                ⊎ (fragment self (make_gsv_key msg_type msg_count j) ≡ some (sentences j))
              → fragment self' (make_gsv_key msg_type msg_count j) ≡ some (sentences j))
    arrived [] self out within others e = (tt, λ j w. elim [ inl p ↦ absurd (cc p) | inr q ↦ q ])
    arrived (inr text ∷ rest) self out within others e =
        let same : (j : ℕ)
            → fragment (parse_sentence f64 chrono libs checks self text).0
                (make_gsv_key msg_type msg_count j)
              ≡ fragment self (make_gsv_key msg_type msg_count j) =
          λ j.
            fragment-NotOf f64 chrono libs checks self text msg_type msg_count j plain
              (omega (arith, small)) others.0 in
        let (waits, held) = arrived rest _ out within others.1 (same last ∙ e) in
        (waits, λ j w. elim [ inl p ↦ held j w (inl p) | inr q ↦ held j w (inr (same j ∙ q)) ])
    arrived (inl k ∷ rest) self out within others e =
        let (answers, missing, kept, u) =
          arrive-front {F = F} {Z = Z} libs.parse_f32 checks nav_system msg_type msg_count sentences
            small last last_within numbered one_type (k ∷ []) self (ground arith)
            (λ j m. within j (ground arith)) e in
        let step =
          parse_sentence-gsv f64 chrono libs checks self (texts k) (sentences k) nav_system
            (framed k (within k (ground (arith, (==_iff k k).1 refl)))) in
        let key = make_gsv_key msg_type msg_count in
        let next = (parse_sentence f64 chrono libs checks self (texts k)).0 in
        let (waits, held) =
          arrived rest next (ground arith) (λ j m. within j (ground arith)) others
            (rw step missing) in
        let answered : (parse_sentence f64 chrono libs checks self (texts k)).1
            ≡ ok ParsedMessage.incomplete =
          rw step (same_head answers) in
        (
          (answered, waits),
          λ j w h. held j w (elim (Bool-cases (among j (numbers_of rest))) [
            | inl later ↦ inl later
            | inr now ↦
                inr (rw step (kept j w (elim h [ inl m ↦ inl (ground arith) | inr q ↦ inr q ])))
          ]),
        )

    -- The numbered sentences of a GSV message of one type and less than 2 ^ 32 - 1 sentences come in
    -- any order, any of them but the last one again, and any other sentences between them, of which
    -- none is a sentence of a GSV message of that type and count. Where the store does not hold the
    -- one that comes last, each but it is answered by no message, the last one by the satellites of
    -- all sentences in the order of their numbers, and then the store holds no sentence of the
    -- message.
    pub parse_sentence-satellites :
        (front : List Arrival) (self : NmeaParser T)
        → among last (numbers_of front) ≡ false
        → ((k : ℕ) → among k (numbers_of front) ≡ true → Within 1 msg_count k)
        → ((j : ℕ) → Within 1 msg_count j → j ≢ last → among j (numbers_of front) ≡ true)
        → OthersNotOf msg_type msg_count front
        → fragment self (make_gsv_key msg_type msg_count last) ≡ none
        → let before = run f64 chrono libs checks self (map (text_of texts) front) in
          let answer = parse_sentence f64 chrono libs checks before (texts last) in
          AllWait self front
          × (answer.1
              ≡ ok (
                  ParsedMessage.gnss
                    (GnssMessage.gsv (gather libs.parse_f32 nav_system sentences 1 msg_count))))
          × ((j : ℕ)
              → Within 1 msg_count j
              → fragment answer.0 (make_gsv_key msg_type msg_count j) ≡ none)
    parse_sentence-satellites front self out within all others e =
        let before = run f64 chrono libs checks self (map (text_of texts) front) in
        let (waits, held) = arrived front self out within others e in
        let (a, b, c) =
          handle-last {F = F} {Z = Z} libs.parse_f32 checks nav_system msg_type msg_count sentences
            small last last_within numbered one_type before
            (λ j w ne. held j w (inl (all j w ne))) in
        let step =
          parse_sentence-gsv f64 chrono libs checks before (texts last) (sentences last) nav_system
            (framed last last_within) in
        (waits, rw step a, λ j w. rw step (b j w))
