-- ===== src/Parser/Dispatch/Safety.antt =====
-- What a sentence can make the parser do that no sentence should: where `parse_sentence` panics.
use nmea_parser.Common.{
  ℕ, suc, ◌^◌, ◌<◌, ◌≤◌, ◌≡◌, ◌≢◌, refl, ◌⊎◌, inl, inr, Bool, true, false, ◌==◌, ◌||◌, ltb, ltb→lt,
  Option, none, some, List, [], ◌∷◌, Bool-cases, Option-cases, Outcome, ok, err, panic, ◌>>◌,
  bind-ne_panic, ok-ne_panic, bind-ok, ok_or, guard, pos, length, arith, invalid_sentence,
}
use nmea_parser.Text.{Text, codes, eq_text, split}
use nmea_parser.Bits.{Bits, pick_u64, parse_payload}
use nmea_parser.Bits.Armor.{parse_payload_unchecked}
use nmea_parser.Numbers.{F64}
use nmea_parser.Chrono.{Chrono}
use nmea_parser.Store.{NmeaParser}
use nmea_parser.Message.{ParsedMessage}
use nmea_parser.Ais.Types.{Station}
use nmea_parser.Ais.Vdm.Slices.{header}
use nmea_parser.Ais.Vdm.T24.Stored.{handle-ne_panic}
use nmea_parser.Gnss.Libraries.{Libraries}
use nmea_parser.Gnss.Data.{GnssMessage}
use nmea_parser.Gnss.Dispatch.{gnss_message, dispatch_gnss}
use nmea_parser.Gnss.Gsv.Total.{gsv-ne_panic}
use nmea_parser.Gnss.Total.{gnss_message_panics}
use nmea_parser.Parser.Talker.{NavigationSystem, identify}
use nmea_parser.Parser.Talker.Total.{identify-ne_panic}
use nmea_parser.Parser.Dispatch.{on_ok, on_bits, dispatch_message, parse_vdm, parse_sentence}
use nmea_parser.Parser.Dispatch.Panics.{ais_message_panics}
use nmea_parser.Parser.Frame.{
  frame, shed_prefix, split_checksum, verify, before_comma, all_type_chars,
}
use nmea_parser.Parser.Vdm.Fragments.{fragment, take_fragment_first, take_fragment_second}
use nmea_parser.Parser.Vdm.{
  VdmFields, read_field, read_fields, to_some, take_fragment, two_fragments, assemble, no_fields,
}

frame-all_type_chars :
    (text sentence sentence_type : Text)
    → frame text ≡ ok (sentence, sentence_type)
    → all_type_chars sentence_type ≡ true
unfolding frame
frame-all_type_chars text sentence sentence_type e =
    let (start, _, e1) = bind-ok (ok_or (shed_prefix text) invalid_sentence) _ e in
    let (parts, _, e2) = bind-ok (split_checksum start) _ e1 in
    let (body, _, e3) = bind-ok (verify parts.0 parts.1) _ e2 in
    let (t, _, e4) = bind-ok (ok_or (before_comma body) invalid_sentence) _ e3 in
    last body sentence t sentence_type e4
  where
    last :
        (a b t u : Text)
        → ◌>>◌ {B = Text × Text} (guard (all_type_chars t) invalid_sentence) (ok (a, t)) ≡ ok (b, u)
        → all_type_chars u ≡ true
    last a b t u e = elim (Bool-cases (all_type_chars t)) [
      | inl p ↦ let same : t ≡ u = cc (p, e) in rw (← same, p)
      | inr p ↦ absurd (cc (p, e))
    ]

read_field-ne_panic : (num : ℕ) (s : Text) (fields : VdmFields) → read_field num s fields ≢ panic
unfolding read_field
read_field-ne_panic num s fields = ground arith

read_fields-ne_panic :
    (num : ℕ) (split : List Text) (fields : VdmFields) → read_fields num split fields ≢ panic
unfolding read_fields
read_fields-ne_panic num [] fields = ok-ne_panic fields
read_fields-ne_panic num (s ∷ rest) fields =
    bind-ne_panic (read_field num s fields) _ (read_field-ne_panic num s fields)
      (read_fields-ne_panic (suc num) rest)

to_some-ne_panic : (payload : Text) → to_some (parse_payload false payload) ≢ panic
to_some-ne_panic payload =
    let (bv, e, _) = parse_payload_unchecked payload in rw e (ok-ne_panic (some bv))

module _ {T : Type 0} (self : NmeaParser T) where
  take_fragment-ne_panic :
      (own other payload : Text) (join : Text → Text)
      → (take_fragment false self own other payload join).1 ≢ panic
  take_fragment-ne_panic own other payload join = elim (Option-cases (fragment self other)) [
    | inl e ↦ rw (take_fragment_first false self own other payload join e) (ok-ne_panic none)
    | inr (p, e) ↦
        rw (take_fragment_second false self own other payload p join e) (to_some-ne_panic (join p))
  ]

  assemble-ne_panic :
      (sentence_type : Text) (fields : VdmFields)
      → (assemble false self sentence_type fields).1 ≢ panic
  unfolding assemble two_fragments
  assemble-ne_panic sentence_type fields =
      grind (arith, take_fragment-ne_panic, to_some-ne_panic fields.payload_string)

module _ {F T G : Type 0} where
  on_ok_panics :
      {A : Type 0} (self : NmeaParser T) (o : Outcome A)
      (f : A → NmeaParser T × Outcome (ParsedMessage F T G))
      → (on_ok self o f).1 ≡ panic
      → (o ≡ panic) ⊎ ((a : A) × (o ≡ ok a) × ((f a).1 ≡ panic))
  on_ok_panics self (ok a) f e = inr (a, refl, e)
  on_ok_panics self (err p) f e = absurd cc
  on_ok_panics self panic f e = inl refl

  on_bits_panics :
      (r : NmeaParser T × Outcome (Option Bits))
      (f : NmeaParser T → Bits → NmeaParser T × Outcome (ParsedMessage F T G))
      → (on_bits r f).1 ≡ panic
      → (r.1 ≡ panic) ⊎ ((bv : Bits) × (r.1 ≡ ok (some bv)) × ((f r.0 bv).1 ≡ panic))
  on_bits_panics (self, ok none) f e = absurd cc
  on_bits_panics (self, ok (some bv)) f e = inr (bv, refl, e)
  on_bits_panics (self, err p) f e = absurd cc
  on_bits_panics (self, panic) f e = inl refl

-- The sentence completes an AIS message of these bits.
abbrev pub Completes : {T : Type 0} → NmeaParser T → Text → Bits → Type 0
Completes self text bv =
    (framed : Text × Text) × (identified : NavigationSystem × Station × Text) × (fields : VdmFields)
    × (frame text ≡ ok framed)
    × (identify framed.1 ≡ ok identified)
    × (read_fields 0 (split b',' framed.0) no_fields ≡ ok fields)
    × ((assemble false self identified.2 fields).1 ≡ ok (some bv))

-- A message of type 25 or 26 that ends inside its header, or one too long for a vector.
abbrev pub IsCut : Bits → Type 0
IsCut bv =
    (((pick_u64 bv 0 6 ≡ 25) ⊎ (pick_u64 bv 0 6 ≡ 26)) × (length bv < header bv))
    ⊎ (2 ^ 64 ≤ length bv)

module _ {F S T Z : Type 0} (f64 : F64 F) (chrono : Chrono T) (libs : Libraries S Z) (start : T)
    (clock : chrono.with_ymd_and_hms (pos 2000) 1 1 0 0 0 ≡ some start) (now : T)
    (clock' : chrono.with_ymd_and_hms (pos 2020) 1 1 0 0 0 ≡ some now) where
  dispatch_message_panics :
      (G : Type 0) (self : NmeaParser T) (bv : Bits) (s : Station) (own : Bool)
      → (dispatch_message {G = G} f64 chrono false self bv s own).1 ≡ panic
      → IsCut bv
  unfolding dispatch_message
  dispatch_message_panics G self bv s own e = elim (Bool-cases (pick_u64 bv 0 6 == 24)) [
    | inl p ↦ absurd (handle-ne_panic F G bv s self own (cc (p, e)))
    | inr p ↦ elim (Bool-cases (ltb (length bv) (2 ^ 64))) [
      | inl small ↦ inl (
          ais_message_panics {G = G} f64 chrono false start clock (pick_u64 bv 0 6) bv s own
            (ltb→lt (length bv) (2 ^ 64) small) (cc (p, e)))
      | inr large ↦ inr (ground arith)
    ]
  ]

  dispatch_gnss-ne_panic :
      (self : NmeaParser T) (t sentence : Text) (n : NavigationSystem)
      → (dispatch_gnss f64 chrono libs false self t sentence n).1 ≢ panic
  unfolding dispatch_gnss
  dispatch_gnss-ne_panic self t sentence n = elim (Bool-cases (eq_text t (codes "$GSV"))) [
    | inl p ↦ rw p (gsv-ne_panic F Z libs.parse_f32 sentence n self)
    | inr p ↦ rw p (
        bind-ne_panic (gnss_message f64 chrono libs false t sentence n) _
          (λ e.
            cc
              ((gnss_message_panics f64 chrono libs start clock now clock' sentence n false t e).1))
          (λ g. ok-ne_panic _))
  ]

  parse_vdm_panics :
      (G : Type 0) (self : NmeaParser T) (sentence sentence_type : Text) (s : Station)
      → (parse_vdm {G = G} f64 chrono false self sentence sentence_type s).1 ≡ panic
      → (fields : VdmFields) × (bv : Bits) × (read_fields 0 (split b',' sentence) no_fields
          ≡ ok fields)
        × ((assemble false self sentence_type fields).1 ≡ ok (some bv))
        × IsCut bv
  unfolding parse_vdm
  parse_vdm_panics G self sentence sentence_type s e =
      elim (on_ok_panics self (read_fields 0 (split b',' sentence) no_fields) _ e) [
        | inl p ↦ absurd (read_fields-ne_panic 0 (split b',' sentence) no_fields p)
        | inr (fields, er, e1) ↦
            elim (on_bits_panics (assemble false self sentence_type fields) _ e1) [
              | inl p ↦ absurd (assemble-ne_panic self sentence_type fields p)
              | inr (bv, ea, e2) ↦ (fields, bv, er, ea, dispatch_message_panics G _ bv s _ e2)
            ]
      ]

  -- Where chrono gives the first seconds of 2000 and of 2020: in a build without overflow checks a
  -- sentence panics only where its frame does, or where it completes an AIS message of type 25 or 26
  -- that ends inside its header (or one of 2 ^ 64 bits or more).
  pub parse_sentence_panics :
      (self : NmeaParser T) (text : Text)
      → (parse_sentence f64 chrono libs false self text).1 ≡ panic
      → (frame text ≡ panic) ⊎ ((bv : Bits) × Completes self text bv × IsCut bv)
  unfolding parse_sentence
  parse_sentence_panics self text e = elim (on_ok_panics self (frame text) _ e) [
    | inl p ↦ inl p
    | inr (framed, ef, e1) ↦ elim (on_ok_panics self (identify framed.1) _ e1) [
      | inl p ↦
          absurd (identify-ne_panic framed.1 (frame-all_type_chars text framed.0 framed.1 ef) p)
      | inr (identified, ei, e2) ↦
          elim (Bool-cases
            (eq_text identified.2 (codes "!VDM") || eq_text identified.2 (codes "!VDO"))) [
              | inl q ↦
                  let (fields, bv, er, ea, cut) =
                    parse_vdm_panics (GnssMessage F S T Z) self framed.0 identified.2 identified.1
                      (cc (q, e2)) in
                  inr (bv, (framed, identified, fields, ef, ei, er, ea), cut)
              | inr q ↦
                  absurd
                    (dispatch_gnss-ne_panic self identified.2 framed.0 identified.0 (cc (q, e2)))
            ]
    ]
  ]
