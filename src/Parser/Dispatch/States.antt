-- ===== src/Parser/Dispatch/States.antt =====
-- What one sentence does to the state: the parts of `parse_sentence` that change it.
use nmea_parser.Common.{
  ◌≡◌, refl, inl, inr, Bool, true, false, ◌==◌, Option, none, some, List, [], ◌∷◌, Bool-cases,
  Outcome-cases, Outcome, ok, err, panic,
}
use nmea_parser.Text.{Text, codes, eq_text, split}
use nmea_parser.Text.Laws.{eq_text_iff}
use nmea_parser.Bits.{Bits, pick_u64}
use nmea_parser.Numbers.{F64}
use nmea_parser.Chrono.{Chrono}
use nmea_parser.Store.{NmeaParser}
use nmea_parser.Message.{ParsedMessage}
use nmea_parser.Ais.Types.{Station}
use nmea_parser.Ais.Vdm.T24
use nmea_parser.Gnss.Libraries.{Libraries}
use nmea_parser.Gnss.Data.{GnssMessage}
use nmea_parser.Gnss.Dispatch.{dispatch_gnss}
use nmea_parser.Parser.Frame.{frame}
use nmea_parser.Parser.Talker.{NavigationSystem, identify}
use nmea_parser.Parser.Vdm.{VdmFields, no_fields, read_fields, assemble}
use nmea_parser.Parser.Vdm.Halves.{vdm_type}
use nmea_parser.Parser.Dispatch.{on_ok, on_bits, dispatch_message, parse_vdm, parse_sentence}

-- An AIS sentence of a station, on the own vessel or not, with these fields.
abbrev pub Carries : Text → Bool → Station → VdmFields → Type 0
Carries text own s fields =
    (framed : Text × Text) × (nav_system : NavigationSystem) × (frame text ≡ ok framed)
    × (identify framed.1 ≡ ok (nav_system, s, vdm_type own))
    × (read_fields 0 (split b',' framed.0) no_fields ≡ ok fields)

-- A sentence of a type behind a talker, cut out of its text.
abbrev pub IsSentence : Text → Text → Text → NavigationSystem → Type 0
IsSentence text sentence_type sentence nav_system =
    (full_type : Text) × (s : Station) × (frame text ≡ ok (sentence, full_type))
    × (identify full_type ≡ ok (nav_system, s, sentence_type))

-- What follows on the bits of a completed message.
pub on_bits-ok :
    {F T G : Type 0} (r : NmeaParser T × Outcome (Option Bits)) (bv : Bits)
    (f : NmeaParser T → Bits → NmeaParser T × Outcome (ParsedMessage F T G))
    → r.1 ≡ ok (some bv)
    → on_bits r f ≡ f r.0 bv
on_bits-ok (self, o) bv f e = rw e

module _ {F T G : Type 0} (Q : NmeaParser T → Type 0) where
  state_on_ok :
      {A : Type 0} (self : NmeaParser T) (o : Outcome A)
      (f : A → NmeaParser T × Outcome (ParsedMessage F T G))
      → Q self
      → ((a : A) → o ≡ ok a → Q (f a).0)
      → Q (on_ok self o f).0
  state_on_ok self (ok a) f h k = k a refl
  state_on_ok self (err e) f h k = h
  state_on_ok self panic f h k = h

  state_on_bits :
      (r : NmeaParser T × Outcome (Option Bits))
      (f : NmeaParser T → Bits → NmeaParser T × Outcome (ParsedMessage F T G))
      → Q r.0
      → ((bv : Bits) → r.1 ≡ ok (some bv) → Q (f r.0 bv).0)
      → Q (on_bits r f).0
  state_on_bits (self, ok none) f h k = h
  state_on_bits (self, ok (some bv)) f h k = k bv refl
  state_on_bits (self, err e) f h k = h
  state_on_bits (self, panic) f h k = h

module _ {F S T Z : Type 0} (f64 : F64 F) (chrono : Chrono T) (libs : Libraries S Z) (checks : Bool)
    (self : NmeaParser T) where
  parse_sentence-vdm :
      (text : Text) (own : Bool) (framed : Text × Text) (nav_system : NavigationSystem)
      (s : Station)
      → frame text ≡ ok framed
      → identify framed.1 ≡ ok (nav_system, s, vdm_type own)
      → parse_sentence f64 chrono libs checks self text
        ≡ on_ok self (read_fields 0 (split b',' framed.0) no_fields) (λ fields.
          on_bits
            (assemble checks self (vdm_type own) fields)
            (λ self' bv. dispatch_message f64 chrono checks self' bv s own))
  unfolding parse_sentence parse_vdm
  parse_sentence-vdm text true framed nav_system s ef ei = rw (ef, ei)
  parse_sentence-vdm text false framed nav_system s ef ei = rw (ef, ei)

  -- The answer to an AIS sentence, by its fields.
  pub parse_sentence-Carries :
      (text : Text) (own : Bool) (s : Station) (fields : VdmFields)
      → Carries text own s fields
      → parse_sentence f64 chrono libs checks self text
        ≡ on_bits
            (assemble checks self (vdm_type own) fields)
            (λ self' bv. dispatch_message f64 chrono checks self' bv s own)
  parse_sentence-Carries text own s fields (framed, nav_system, ef, ei, er) =
      rw (parse_sentence-vdm text own framed nav_system s ef ei, er)

  module _ (text : Text) (Q : NmeaParser T → Type 0) (same : Q self)
      (by_fields : (own : Bool) (s : Station) (fields : VdmFields)
        → Carries text own s fields
        → Q (assemble checks self (vdm_type own) fields).0)
      (by_bits : (own : Bool) (s : Station) (fields : VdmFields) (bv : Bits)
        → Carries text own s fields
        → (assemble checks self (vdm_type own) fields).1 ≡ ok (some bv)
        → (G : Type 0)
        → Q (T24.handle {F = F} {G = G} bv s (assemble checks self (vdm_type own) fields).0 own).0)
      (by_gnss : (sentence_type sentence : Text) (nav_system : NavigationSystem)
        → IsSentence text sentence_type sentence nav_system
        → Q (dispatch_gnss f64 chrono libs checks self sentence_type sentence nav_system).0) where
    state_dispatch_message :
        (G : Type 0) (self' : NmeaParser T) (bv : Bits) (s : Station) (own : Bool)
        → Q self'
        → Q (T24.handle {F = F} {G = G} bv s self' own).0
        → Q (dispatch_message {G = G} f64 chrono checks self' bv s own).0
    unfolding dispatch_message
    state_dispatch_message G self' bv s own h k = elim (Bool-cases (pick_u64 bv 0 6 == 24)) [
      | inl p ↦ rw p k
      | inr p ↦ rw p h
    ]

    state_vdm :
        (own : Bool) (framed : Text × Text) (nav_system : NavigationSystem) (s : Station)
        → frame text ≡ ok framed
        → identify framed.1 ≡ ok (nav_system, s, vdm_type own)
        → Q (parse_sentence f64 chrono libs checks self text).0
    state_vdm own framed nav_system s ef ei =
        rw (parse_sentence-vdm text own framed nav_system s ef ei) (
          state_on_ok Q self (read_fields 0 (split b',' framed.0) no_fields) _ same (λ fields er.
            let c : Carries text own s fields = (framed, nav_system, ef, ei, er) in
            state_on_bits Q (assemble checks self (vdm_type own) fields) _
              (by_fields own s fields c)
              (λ bv e.
                state_dispatch_message (GnssMessage F S T Z) _ bv s own (by_fields own s fields c)
                  (by_bits own s fields bv c e (GnssMessage F S T Z)))))

    -- What holds of the state, and is kept by each part that changes it, holds behind the sentence.
    pub parse_sentence-state : Q (parse_sentence f64 chrono libs checks self text).0
    unfolding parse_sentence
    parse_sentence-state = elim (Outcome-cases (frame text)) [
      | inr (inl (e, ef)) ↦ rw ef same
      | inr (inr ef) ↦ rw ef same
      | inl (framed, ef) ↦ elim (Outcome-cases (identify framed.1)) [
        | inr (inl (e, ei)) ↦ rw (ef, ei) same
        | inr (inr ei) ↦ rw (ef, ei) same
        | inl ((nav_system, s, t), ei) ↦ elim (Bool-cases (eq_text t (codes "!VDM"))) [
          | inl p ↦
              state_vdm false framed nav_system s ef
                (rw ei (rw ((eq_text_iff t (codes "!VDM")).0 p)))
          | inr p ↦ elim (Bool-cases (eq_text t (codes "!VDO"))) [
            | inl q ↦
                state_vdm true framed nav_system s ef
                  (rw ei (rw ((eq_text_iff t (codes "!VDO")).0 q)))
            | inr q ↦ rw (ef, ei, p, q) (by_gnss t framed.0 nav_system (framed.1, s, ef, ei))
          ]
        ]
      ]
    ]

module _ {F S T Z : Type 0} (f64 : F64 F) (chrono : Chrono T) (libs : Libraries S Z)
    (checks : Bool) where
  -- The state behind a list of sentences.
  abbrev pub run : NmeaParser T → List Text → NmeaParser T
  run self [] = self
  run self (text ∷ texts) = run (parse_sentence f64 chrono libs checks self text).0 texts
