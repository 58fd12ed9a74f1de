-- ===== src/Parser/Dispatch/Interleaved.antt =====
-- A message in two sentences with any other sentences between them.
use nmea_parser.Common.{
  ℕ, ◌^◌, ◌<◌, ◌≡◌, refl, ◌∙◌, inl, inr, Bool, true, false, not, none, some, List, [], ◌∷◌,
  Bool-cases, ok,
}
use nmea_parser.Text.{Text, codes, eq_text}
use nmea_parser.Text.Laws.{eq_text_refl}
use nmea_parser.Bits.{parse_payload}
use nmea_parser.Numbers.{F64}
use nmea_parser.Chrono.{Chrono}
use nmea_parser.Store.{NmeaParser, push_string, pull_string}
use nmea_parser.Message.{ParsedMessage}
use nmea_parser.Ais.Types.{Station}
use nmea_parser.Ais.Vdm.T24.Untouched.{handle-saved_fragments}
use nmea_parser.Gnss.Libraries.{Libraries}
use nmea_parser.Gnss.Gsv.Exclusive.{fragment-handle}
use nmea_parser.Gnss.Dispatch.{dispatch_gnss}
use nmea_parser.Parser.Talker.{NavigationSystem}
use nmea_parser.Parser.Vdm.{VdmFields, channel_or_empty, take_fragment, assemble, to_some}
use nmea_parser.Parser.Vdm.Fragments.{
  fragment, take_fragment_first, take_fragment_second, fragment-push_string,
}
use nmea_parser.Parser.Vdm.Halves.{vdm_type, half_key}
use nmea_parser.Parser.Vdm.Cases.{IsHalf}
use nmea_parser.Parser.Vdm.Interleaved.{
  SmallId, SmallId-read, in_order, assemble-IsHalf, fragment-assemble,
}
use nmea_parser.Parser.Dispatch.{on_bits, dispatch_message, parse_sentence}
use nmea_parser.Parser.Dispatch.States.{Carries, parse_sentence-Carries, parse_sentence-state, run}

-- The sentence holds the half `b` of the message `i` on channel `r`, of a station, with a payload.
abbrev pub HoldsHalf : Text → Bool → Station → ℕ → Text → Bool → Text → Type 0
HoldsHalf text own s i r b payload =
    (fields : VdmFields) × Carries text own s fields
    × IsHalf fields i b
    × (channel_or_empty fields.radio_channel_code ≡ r)
    × (fields.payload_string ≡ payload)

-- The sentence holds no half of that message.
abbrev pub HoldsNoHalf : Bool → ℕ → Text → Text → Type 0
HoldsNoHalf own i r text =
    (s : Station) (b : Bool) (payload : Text) → ¬ HoldsHalf text own s i r b payload

abbrev pub AllHoldNoHalf : Bool → ℕ → Text → List Text → Type 0
AllHoldNoHalf own i r [] = Unit {0}
AllHoldNoHalf own i r (text ∷ texts) = HoldsNoHalf own i r text × AllHoldNoHalf own i r texts

not-not : (b : Bool) → not (not b) ≡ b
not-not true = refl
not-not false = refl

in_order-not : (b : Bool) (p q : Text) → in_order (not b) q p ≡ in_order b p q
in_order-not true p q = refl
in_order-not false p q = refl

Carries-SmallId :
    (text : Text) (own : Bool) (s : Station) (fields : VdmFields)
    → Carries text own s fields
    → SmallId fields
Carries-SmallId text own s fields (framed, nav_system, ef, ei, er) = SmallId-read _ fields er

module _ {F S T Z : Type 0} (f64 : F64 F) (chrono : Chrono T) (libs : Libraries S Z) (checks : Bool)
    (own : Bool) (i : ℕ) (r : Text) where
  fragment-dispatch_gnss :
      (self : NmeaParser T) (sentence_type sentence : Text) (nav_system : NavigationSystem)
      (b : Bool)
      → fragment
          (dispatch_gnss f64 chrono libs checks self sentence_type sentence nav_system).0
          (half_key own i r b)
        ≡ fragment self (half_key own i r b)
  unfolding dispatch_gnss
  fragment-dispatch_gnss self sentence_type sentence nav_system b =
      elim (Bool-cases (eq_text sentence_type (codes "$GSV"))) [
        | inl p ↦
            rw p (fragment-handle F Z libs.parse_f32 own i r b checks sentence nav_system self)
        | inr p ↦ rw p
      ]

  fragment-parse_sentence :
      (self : NmeaParser T) (text : Text) (b : Bool)
      → i < 2 ^ 64
      → HoldsNoHalf own i r text
      → fragment (parse_sentence f64 chrono libs checks self text).0 (half_key own i r b)
        ≡ fragment self (half_key own i r b)
  fragment-parse_sentence self text b small other =
      let by_fields : (own' : Bool) (s : Station) (fields : VdmFields)
          → Carries text own' s fields
          → fragment (assemble checks self (vdm_type own') fields).0 (half_key own i r b)
            ≡ fragment self (half_key own i r b) =
        λ own' s fields c.
          fragment-assemble checks self own' fields own i r b (Carries-SmallId text own' s fields c)
            small
            (λ k p half e. other s k fields.payload_string (fields, rw (← p) c, half, e, refl)) in
      parse_sentence-state f64 chrono libs checks self text
        (λ s. fragment s (half_key own i r b) ≡ fragment self (half_key own i r b)) refl by_fields
        (λ own' s fields bv c e G.
          rw (handle-saved_fragments F G bv s (assemble checks self (vdm_type own') fields).0 own')
            (by_fields own' s fields c))
        (λ sentence_type sentence nav_system c.
          fragment-dispatch_gnss self sentence_type sentence nav_system b)

  fragment-run :
      (self : NmeaParser T) (texts : List Text) (b : Bool)
      → i < 2 ^ 64
      → AllHoldNoHalf own i r texts
      → fragment (run f64 chrono libs checks self texts) (half_key own i r b)
        ≡ fragment self (half_key own i r b)
  fragment-run self [] b small h = refl
  fragment-run self (text ∷ texts) b small h =
      fragment-run (parse_sentence f64 chrono libs checks self text).0 texts b small h.1
      ∙ fragment-parse_sentence self text b small h.0

  parse_half :
      (self : NmeaParser T) (text : Text) (s : Station) (b : Bool) (payload : Text)
      → HoldsHalf text own s i r b payload
      → parse_sentence f64 chrono libs checks self text
        ≡ on_bits
            (take_fragment checks self
              (half_key own i r b)
              (half_key own i r (not b))
              payload
              (in_order b payload))
            (λ self' bv. dispatch_message f64 chrono checks self' bv s own)
  parse_half self text s b payload (fields, c, half, er, ep) = rw (
    parse_sentence-Carries f64 chrono libs checks self text own s fields c,
    assemble-IsHalf checks self own fields i b half,
    er,
    ep,
  )

  module _ (self : NmeaParser T) (b : Bool) (s s' : Station) (first second payload other : Text)
      (texts : List Text) where
    -- A message comes in two sentences, in either order, and any other sentences between them, of
    -- which none holds a half of that message. Where the store does not hold the half that comes
    -- last, the first of the two is answered by no message, and the last by the message of the
    -- joined payload, with its half gone from the store.
    pub parse_sentence-interleaved :
        HoldsHalf first own s i r b payload
        → HoldsHalf second own s' i r (not b) other
        → fragment self (half_key own i r (not b)) ≡ none
        → AllHoldNoHalf own i r texts
        → let once = parse_sentence f64 chrono libs checks self first in
          let between = run f64 chrono libs checks once.0 texts in
          (once.1 ≡ ok ParsedMessage.incomplete)
          × (parse_sentence f64 chrono libs checks between second
              ≡ on_bits
                  (
                    (pull_string between (half_key own i r b)).0,
                    to_some (parse_payload checks (in_order b payload other)),
                  )
                  (λ self' bv. dispatch_message f64 chrono checks self' bv s' own))
    parse_sentence-interleaved h h' fresh others =
        let own_key = half_key own i r b in
        let other_key = half_key own i r (not b) in
        let stored = push_string (pull_string self other_key).0 own_key payload in
        let once_is : parse_sentence f64 chrono libs checks self first
            ≡ (stored, ok ParsedMessage.incomplete) =
          rw (
            parse_half self first s b payload h,
            take_fragment_first checks self own_key other_key payload (in_order b payload) fresh,
          ) in
        let small : i < 2 ^ 64 = Carries-SmallId first own s h.0 h.1 i h.2.1 in
        let held : fragment (run f64 chrono libs checks stored texts) own_key ≡ some payload =
          fragment-run stored texts b small others
          ∙ rw (
            fragment-push_string (pull_string self other_key).0 own_key payload own_key,
            eq_text_refl own_key,
          ) in
        rw once_is (
          refl,
          rw (
            parse_half (run f64 chrono libs checks stored texts) second s' (not b) other h',
            not-not b,
            take_fragment_second checks (run f64 chrono libs checks stored texts) other_key own_key
                other payload (in_order (not b) other) held,
            in_order-not b payload other,
          ),
        )
