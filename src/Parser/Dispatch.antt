-- ===== src/Parser/Dispatch.antt =====
-- lib.rs: the sentence and message types, and `parse_sentence` from end to end.
pub mod Panics
pub mod Sealed
pub mod States
pub mod Growth
pub mod Interleaved
pub mod Single
pub mod Reports
pub mod Printed
pub mod Fixes
pub mod Minimums
pub mod Halved
pub mod Voyages
pub mod Vessels
pub mod Parts
pub mod Others
pub mod Satellites
pub mod Histories
pub mod Kinds
pub mod Senders
pub mod Safety
use nmea_parser.Common.{
  ℕ, ◌^◌, ◌%◌, Bool, true, false, ◌&&◌, ◌||◌, Option, none, some, ◌==◌, leb, if◌then◌else◌, Outcome,
  ok, err, panic, ◌>>=◌, unsupported_sentence_type,
}
use nmea_parser.Text.{Text, codes, eq_text, split}
use nmea_parser.Bits.{Bits, pick_u64}
use nmea_parser.Numbers.{F64}
use nmea_parser.Chrono.{Chrono}
use nmea_parser.Store.{NmeaParser}
use nmea_parser.Message.{ParsedMessage}
use nmea_parser.Gnss.Libraries.{Libraries}
use nmea_parser.Gnss.Data.{GnssMessage}
use nmea_parser.Gnss.Dispatch.{dispatch_gnss}
use nmea_parser.Ais.Types.{Station}
use nmea_parser.Ais.Vdm
use nmea_parser.Parser.Frame.{frame}
use nmea_parser.Parser.Talker.{NavigationSystem, identify}
use nmea_parser.Parser.Vdm.{no_fields, read_fields, assemble}

module _ {F T G : Type 0} where
  abbrev pub on_bits :
      NmeaParser T × Outcome (Option Bits)
      → (NmeaParser T → Bits → NmeaParser T × Outcome (ParsedMessage F T G))
      → NmeaParser T × Outcome (ParsedMessage F T G)
  on_bits (self, ok none) f = (self, ok ParsedMessage.incomplete)
  on_bits (self, ok (some bv)) f = f self bv
  on_bits (self, err e) f = (self, err e)
  on_bits (self, panic) f = (self, panic)

  -- What a failure in front of any change of the state gives.
  abbrev on_ok :
      {A : Type 0}
      → NmeaParser T
      → Outcome A
      → (A → NmeaParser T × Outcome (ParsedMessage F T G))
      → NmeaParser T × Outcome (ParsedMessage F T G)
  on_ok self (ok a) f = f a
  on_ok self (err e) f = (self, err e)
  on_ok self panic f = (self, panic)

module _ {F T G : Type 0} (f64 : F64 F) (chrono : Chrono T) (overflow_checks : Bool) where
  -- The handler of an AIS message by its type, for the types whose handler has no store.
  unfoldable pub ais_message : ℕ → Bits → Station → Bool → Outcome (ParsedMessage F T G)
  ais_message t bv s own =
      if leb 1 t && leb t 3
      then Vdm.T1t2t3.handle f64 bv s own
      else if t == 4
      then Vdm.T4.handle f64 chrono bv s own
      else if t == 5
      then Vdm.T5.handle chrono bv s own
      else if t == 6
      then Vdm.T6.handle bv s own
      else if t == 9
      then Vdm.T9.handle f64 bv s own
      else if t == 10
      then Vdm.T10.handle bv s own
      else if t == 11
      then Vdm.T11.handle f64 chrono bv s own
      else if t == 12
      then Vdm.T12.handle bv s own
      else if t == 13
      then Vdm.T13.handle bv s own
      else if t == 14
      then Vdm.T14.handle bv s own
      else if t == 15
      then Vdm.T15.handle bv s own
      else if t == 16
      then Vdm.T16.handle bv s own
      else if t == 17
      then Vdm.T17.handle f64 bv s own
      else if t == 18
      then Vdm.T18.handle f64 bv s own
      else if t == 19
      then Vdm.T19.handle f64 bv s own
      else if t == 20
      then Vdm.T20.handle bv s own
      else if t == 21
      then Vdm.T21.handle f64 bv s own
      else if t == 22
      then Vdm.T22.handle f64 bv s own
      else if t == 23
      then Vdm.T23.handle f64 bv s own
      else if t == 25
      then Vdm.T25.handle bv s own
      else if t == 26
      then Vdm.T26.handle overflow_checks bv s own
      else if t == 27
      then Vdm.T27.handle f64 bv s own
      else err unsupported_sentence_type

  unfoldable pub dispatch_message :
      NmeaParser T → Bits → Station → Bool → NmeaParser T × Outcome (ParsedMessage F T G)
  unfolding ais_message
  dispatch_message self bv s own =
      let t = pick_u64 bv 0 6 in
      if t == 24 then Vdm.T24.handle bv s self own else (self, ais_message t bv s own)

  -- The arm of `!VDM` and `!VDO`.
  unfoldable pub parse_vdm :
      NmeaParser T → Text → Text → Station → NmeaParser T × Outcome (ParsedMessage F T G)
  unfolding dispatch_message
  parse_vdm self sentence sentence_type s =
      let own = eq_text sentence_type (codes "!VDO") in
      on_ok self (read_fields 0 (split b',' sentence) no_fields) λ fields.
        on_bits (assemble overflow_checks self sentence_type fields)
          λ self' bv. dispatch_message self' bv s own

module _ {F S T Z : Type 0} (f64 : F64 F) (chrono : Chrono T) (libs : Libraries S Z)
    (overflow_checks : Bool) where
  unfoldable pub parse_sentence :
      NmeaParser T → Text → NmeaParser T × Outcome (ParsedMessage F T (GnssMessage F S T Z))
  unfolding parse_vdm dispatch_gnss
  parse_sentence self text = on_ok self (frame text) λ framed.
      on_ok self (identify framed.1) λ identified.
        let (nav_system, s, sentence_type) = identified in
        if eq_text sentence_type (codes "!VDM") || eq_text sentence_type (codes "!VDO")
        then parse_vdm f64 chrono overflow_checks self framed.0 sentence_type s
        else dispatch_gnss f64 chrono libs overflow_checks self sentence_type framed.0 nav_system
