-- ===== src/Parser/Dispatch/Histories.antt =====
-- The states that a parser can come to, and what holds in all of them.
use nmea_parser.Common.{◌<◌, ◌≡◌, refl, ◌⊎◌, inl, inr, Bool, Bool-cases, ok}
use nmea_parser.Text.{Text, codes, eq_text}
use nmea_parser.Bits.{Bits, pick_u64}
use nmea_parser.Numbers.{F64}
use nmea_parser.Chrono.{Chrono}
use nmea_parser.Store.{NmeaParser, new, reset, lookup}
use nmea_parser.Message.{ParsedMessage}
use nmea_parser.Ais.Types.{Station}
use nmea_parser.Ais.Data.{VesselStaticData}
use nmea_parser.Ais.Fields.{pick_u32}
use nmea_parser.Ais.Vdm.T24
use nmea_parser.Ais.Vdm.T24.Stored.{HoldsParts, HoldsParts-handle, handle-answered}
use nmea_parser.Gnss.Libraries.{Libraries}
use nmea_parser.Gnss.Gsv.Exclusive.{Exclusive-handle}
use nmea_parser.Ais.Vdm.T24.Untouched.{handle-saved_fragments}
use nmea_parser.Parser.Vdm.Untouched.{assemble-saved_vsds}
use nmea_parser.Gnss.Gsv.Untouched.{handle-saved_vsds}
use nmea_parser.Gnss.Dispatch.{dispatch_gnss}
use nmea_parser.Parser.Talker.{NavigationSystem}
use nmea_parser.Parser.Vdm.{VdmFields, assemble}
use nmea_parser.Parser.Vdm.Exclusive.{Exclusive, Exclusive-assemble}
use nmea_parser.Parser.Vdm.Halves.{vdm_type}
use nmea_parser.Parser.Dispatch.{parse_sentence}
use nmea_parser.Parser.Dispatch.States.{parse_sentence-state}

-- A property of the state that each of its parts keeps, kept by `parse_sentence`.
module _ {F S T Z : Type 0} (P : NmeaParser T → Type 0) (f64 : F64 F) (chrono : Chrono T)
    (libs : Libraries S Z) (checks : Bool)
    (kept_assemble : (self : NmeaParser T) (own : Bool) (fields : VdmFields)
      → P self
      → P (assemble checks self (vdm_type own) fields).0)
    (kept_t24 : (G : Type 0) (bv : Bits) (s : Station) (self : NmeaParser T) (own : Bool)
      → P self
      → P (T24.handle {F = F} {G = G} bv s self own).0)
    (kept_gnss : (self : NmeaParser T) (sentence_type sentence : Text)
        (nav_system : NavigationSystem)
      → P self
      → P (dispatch_gnss f64 chrono libs checks self sentence_type sentence nav_system).0) where
  kept_parse_sentence :
      (self : NmeaParser T) (text : Text)
      → P self
      → P (parse_sentence f64 chrono libs checks self text).0
  kept_parse_sentence self text h =
      parse_sentence-state f64 chrono libs checks self text P h
        (λ own s fields c. kept_assemble self own fields h)
        (λ own s fields bv c e G. kept_t24 G bv s _ own (kept_assemble self own fields h))
        (λ sentence_type sentence nav_system c. kept_gnss self sentence_type sentence nav_system h)

module _ {F S T Z : Type 0} (f64 : F64 F) (chrono : Chrono T) (libs : Libraries S Z)
    (checks : Bool) where
  -- The states that a parser comes to by sentences and resets.
  pub data Reachable : NmeaParser T → Type 0 where
    start : Reachable new
    sentence :
        {self : NmeaParser T} (text : Text)
        → Reachable self
        → Reachable (parse_sentence f64 chrono libs checks self text).0
    restart : {self : NmeaParser T} → Reachable self → Reachable (reset self)

  -- What holds of an empty store and is kept by `parse_sentence` holds of every reachable state.
  Reachable-induction :
      (P : NmeaParser T → Type 0)
      → P new
      → ((self : NmeaParser T) (text : Text)
          → P self
          → P (parse_sentence f64 chrono libs checks self text).0)
      → (self : NmeaParser T) → Reachable self
      → P self
  unfolding reset new
  Reachable-induction P empty kept self start = empty
  Reachable-induction P empty kept self (sentence text h) =
      kept _ text (Reachable-induction P empty kept _ h)
  Reachable-induction P empty kept self (restart h) = empty

  Exclusive-dispatch_gnss :
      (self : NmeaParser T) (sentence_type text : Text) (nav_system : NavigationSystem)
      → Exclusive self
      → Exclusive (dispatch_gnss f64 chrono libs checks self sentence_type text nav_system).0
  unfolding dispatch_gnss
  Exclusive-dispatch_gnss self sentence_type text nav_system h =
      elim (Bool-cases (eq_text sentence_type (codes "$GSV"))) [
        | inl p ↦ rw p (Exclusive-handle F Z libs.parse_f32 checks text nav_system self h)
        | inr p ↦ rw p h
      ]

  -- In every state that a parser comes to, the store lacks at least one half of each message.
  pub Reachable-Exclusive : (self : NmeaParser T) → Reachable self → Exclusive self
  unfolding new lookup
  Reachable-Exclusive =
      Reachable-induction Exclusive (λ own i r. inl refl)
        (kept_parse_sentence Exclusive f64 chrono libs checks
          (λ self own fields. Exclusive-assemble checks self own fields)
          (λ G bv s self own h. rw (handle-saved_fragments F G bv s self own) h)
          Exclusive-dispatch_gnss)

  HoldsParts-dispatch_gnss :
      (self : NmeaParser T) (sentence_type text : Text) (nav_system : NavigationSystem)
      → HoldsParts self
      → HoldsParts (dispatch_gnss f64 chrono libs checks self sentence_type text nav_system).0
  unfolding dispatch_gnss
  HoldsParts-dispatch_gnss self sentence_type text nav_system h =
      elim (Bool-cases (eq_text sentence_type (codes "$GSV"))) [
        | inl p ↦ rw (p, handle-saved_vsds F Z libs.parse_f32 checks text nav_system self) h
        | inr p ↦ rw p h
      ]

  -- In every state that a parser comes to, each report in the store is a part of a static data
  -- report, under the MMSI of its vessel.
  pub Reachable-HoldsParts : (self : NmeaParser T) → Reachable self → HoldsParts self
  unfolding new
  Reachable-HoldsParts = Reachable-induction HoldsParts tt (
      kept_parse_sentence HoldsParts f64 chrono libs checks
        (λ self own fields h. rw (assemble-saved_vsds checks self (vdm_type own) fields) h)
        (λ G bv s self own h. HoldsParts-handle F G bv s self own h) HoldsParts-dispatch_gnss)

  -- In every state that a parser comes to, a static data report of part A or B is answered, by no
  -- message or by the complete report of its vessel: two parts are never refused as of different
  -- vessels or versions, and nothing panics.
  pub Reachable-handle_t24 :
      (G : Type 0) (self : NmeaParser T) (bv : Bits) (s : Station) (own : Bool)
      → Reachable self
      → pick_u64 bv 38 2 < 2
      → ((T24.handle {F = F} {G = G} bv s self own).1 ≡ ok ParsedMessage.incomplete)
        ⊎ ((v : VesselStaticData T) × ((T24.handle {F = F} {G = G} bv s self own).1
              ≡ ok (ParsedMessage.vessel_static_data v))
            × (v.mmsi ≡ pick_u32 bv 8 30))
  Reachable-handle_t24 G self bv s own h =
      handle-answered F G bv s self own (Reachable-HoldsParts self h)
