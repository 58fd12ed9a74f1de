-- ===== src/Parser/Dispatch/Vessels.antt =====
-- What the parser holds of a vessel across sentences that complete no message of it.
use nmea_parser.Common.{ℕ, ◌≡◌, ◌≢◌, refl, ◌∙◌, Bool, Bool-cases, inl, inr, some, List, [], ◌∷◌, ok}
use nmea_parser.Text.{Text, codes, eq_text}
use nmea_parser.Bits.{Bits}
use nmea_parser.Numbers.{F64}
use nmea_parser.Chrono.{Chrono}
use nmea_parser.Store.{NmeaParser}
use nmea_parser.Ais.Types.{Station}
use nmea_parser.Ais.Fields.{pick_u32}
use nmea_parser.Ais.Vdm.T24.Pairs.{held}
use nmea_parser.Ais.Vdm.T24.Apart.{held-handle}
use nmea_parser.Gnss.Libraries.{Libraries}
use nmea_parser.Gnss.Dispatch.{dispatch_gnss}
use nmea_parser.Parser.Vdm.Untouched.{assemble-saved_vsds}
use nmea_parser.Gnss.Gsv.Untouched.{handle-saved_vsds}
use nmea_parser.Parser.Talker.{NavigationSystem}
use nmea_parser.Parser.Vdm.{VdmFields, assemble}
use nmea_parser.Parser.Vdm.Halves.{vdm_type}
use nmea_parser.Parser.Dispatch.{parse_sentence}
use nmea_parser.Parser.Dispatch.States.{Carries, parse_sentence-state, run}

module _ {F S T Z : Type 0} (f64 : F64 F) (chrono : Chrono T) (libs : Libraries S Z)
    (checks : Bool) where
  -- The sentence completes the bits of a message here.
  abbrev pub CompletesHere : NmeaParser T → Text → Bits → Type 0
  CompletesHere self text bv =
      (own : Bool) × (s : Station) × (fields : VdmFields) × Carries text own s fields
      × ((assemble checks self (vdm_type own) fields).1 ≡ ok (some bv))

  -- None of the sentences completes a message of that sender.
  abbrev pub NoneFrom : ℕ → NmeaParser T → List Text → Type 0
  NoneFrom mmsi self [] = Unit {0}
  NoneFrom mmsi self (text ∷ texts) =
      ((bv : Bits) → CompletesHere self text bv → pick_u32 bv 8 30 ≢ mmsi)
      × NoneFrom mmsi (parse_sentence f64 chrono libs checks self text).0 texts

  module _ (mmsi : ℕ) where
    held-dispatch_gnss :
        (self : NmeaParser T) (sentence_type sentence : Text) (nav_system : NavigationSystem)
        → held (dispatch_gnss f64 chrono libs checks self sentence_type sentence nav_system).0 mmsi
          ≡ held self mmsi
    unfolding dispatch_gnss
    held-dispatch_gnss self sentence_type sentence nav_system =
        elim (Bool-cases (eq_text sentence_type (codes "$GSV"))) [
          | inl p ↦ rw (p, handle-saved_vsds F Z libs.parse_f32 checks sentence nav_system self)
          | inr p ↦ rw p
        ]

    pub held-assemble :
        (self : NmeaParser T) (own : Bool) (fields : VdmFields)
        → held (assemble checks self (vdm_type own) fields).0 mmsi ≡ held self mmsi
    held-assemble self own fields = rw (assemble-saved_vsds checks self (vdm_type own) fields)

    held-parse_sentence :
        (self : NmeaParser T) (text : Text)
        → ((bv : Bits) → CompletesHere self text bv → pick_u32 bv 8 30 ≢ mmsi)
        → held (parse_sentence f64 chrono libs checks self text).0 mmsi ≡ held self mmsi
    held-parse_sentence self text other =
        parse_sentence-state f64 chrono libs checks self text (λ s. held s mmsi ≡ held self mmsi)
          refl (λ own s fields c. held-assemble self own fields)
          (λ own s fields bv c e G.
            held-handle F G (assemble checks self (vdm_type own) fields).0 mmsi bv s own
              (other bv (own, s, fields, c, e))
            ∙ held-assemble self own fields)
          (λ sentence_type sentence nav_system c.
            held-dispatch_gnss self sentence_type sentence nav_system)

    pub held-run :
        (self : NmeaParser T) (texts : List Text)
        → NoneFrom mmsi self texts
        → held (run f64 chrono libs checks self texts) mmsi ≡ held self mmsi
    held-run self [] h = refl
    held-run self (text ∷ texts) h =
        held-run (parse_sentence f64 chrono libs checks self text).0 texts h.1
        ∙ held-parse_sentence self text h.0
