-- ===== src/Parser/Dispatch/Parts.antt =====
-- The static data of a vessel in two parts with any other sentences between them.
use nmea_parser.Common.{
  ℕ, ◌≡◌, refl, ◌∙◌, Bool, true, false, not, ==_iff, Option, none, some, List, ok,
}
use nmea_parser.Text.{Text}
use nmea_parser.Bits.{Bits, pick_u64}
use nmea_parser.Numbers.{F64}
use nmea_parser.Chrono.{Chrono}
use nmea_parser.Store.{NmeaParser, push_vsd, pull_vsd}
use nmea_parser.Message.{ParsedMessage}
use nmea_parser.Ais.Types.{Station}
use nmea_parser.Ais.Fields.{pick_u32}
use nmea_parser.Ais.Vdm.T24
use nmea_parser.Ais.Data.{VesselStaticData}
use nmea_parser.Ais.Vdm.T24.{static_part, merge, respond}
use nmea_parser.Ais.Vdm.T24.Merge.{
  part_a, full_report, merge-a-b, merge-b-a, static_part-a, static_part-b,
}
use nmea_parser.Ais.Vdm.T24.Pairs.{
  held, held-push_vsd, handle-respond_a, handle-respond_b, respond_first, respond_second,
}
use nmea_parser.Gnss.Libraries.{Libraries}
use nmea_parser.Gnss.Data.{GnssMessage}
use nmea_parser.Parser.Vdm.{VdmFields, assemble}
use nmea_parser.Parser.Vdm.Halves.{vdm_type}
use nmea_parser.Parser.Dispatch.{dispatch_message, parse_sentence}
use nmea_parser.Parser.Dispatch.States.{Carries, on_bits-ok, parse_sentence-Carries, run}
use nmea_parser.Parser.Dispatch.Vessels.{NoneFrom, held-assemble, held-run}

abbrev pub part_code : Bool → ℕ
part_code false = 0
part_code true = 1

-- Part A or B of the static data of a vessel, where its texts are these.
abbrev part_of :
    {T : Type 0} → Bits → Bool → ℕ → Option Text → Text → Option Text → Bool → VesselStaticData T
part_of b own mmsi call_sign vendor name false = part_a own mmsi name
part_of b own mmsi call_sign vendor name true = full_report b own mmsi call_sign vendor none

module _ {F S T Z : Type 0} (f64 : F64 F) (chrono : Chrono T) (libs : Libraries S Z) (checks : Bool)
    (own : Bool) (mmsi : ℕ) where
  -- The sentence, of the own vessel or not, completes a static data report here.
  abbrev pub CompletesReport : NmeaParser T → Text → Bits → Type 0
  CompletesReport self text bv =
      (s : Station) × (fields : VdmFields) × Carries text own s fields
      × ((assemble checks self (vdm_type own) fields).1 ≡ ok (some bv))
      × (pick_u64 bv 0 6 ≡ 24)

  handled :
      (self : NmeaParser T) (text : Text) (bv : Bits)
      → CompletesReport self text bv
      → (s : Station) × (store : NmeaParser T) × (held store mmsi ≡ held self mmsi)
        × (parse_sentence f64 chrono libs checks self text ≡ T24.handle bv s store own)
  unfolding dispatch_message
  handled self text bv (s, fields, c, e, is_24) = (
    s,
    (assemble checks self (vdm_type own) fields).0,
    held-assemble f64 chrono libs checks mmsi self own fields,
    rw (
      parse_sentence-Carries f64 chrono libs checks self text own s fields c,
      on_bits-ok (assemble checks self (vdm_type own) fields) bv
          (λ self' bv'.
            dispatch_message {G = GnssMessage F S T Z} f64 chrono checks self' bv' s own)
          e,
      is_24,
    ),
  )

  module _ (bits : Bool → Bits) (of_part : (c : Bool) → pick_u64 (bits c) 38 2 ≡ part_code c)
      (call_sign : Option Text) (vendor : Text) (name : Option Text)
      (read : (c : Bool)
        → static_part {T = T} (bits c) own c
          ≡ ok (part_of (bits true) own mmsi call_sign vendor name c)) where
    handle-part :
        (c : Bool) (s : Station) (store : NmeaParser T)
        → T24.handle {F = F} {G = GnssMessage F S T Z} (bits c) s store own
          ≡ respond store (part_of (bits true) own mmsi call_sign vendor name c)
    handle-part false s store =
        handle-respond_a (bits false) s store own _ (of_part false) (read false)
    handle-part true s store = handle-respond_b (bits true) s store own _ (of_part true) (read true)

    merge-parts :
        (c : Bool)
        → merge {T = T}
            (part_of (bits true) own mmsi call_sign vendor name (not c))
            (part_of (bits true) own mmsi call_sign vendor name c)
          ≡ ok (full_report (bits true) own mmsi call_sign vendor name)
    merge-parts false = merge-b-a (bits true) own mmsi call_sign vendor name
    merge-parts true = merge-a-b (bits true) own mmsi call_sign vendor name

    part_of-mmsi :
        (c : Bool) → (part_of {T = T} (bits true) own mmsi call_sign vendor name c).mmsi ≡ mmsi
    part_of-mmsi false = refl
    part_of-mmsi true = refl

    module _ (c : Bool) (self : NmeaParser T) (first second : Text) (texts : List Text)
        (fresh : held self mmsi ≡ none) (h : CompletesReport self first (bits c)) where
      stored :
          (store : NmeaParser T) × ((j : ℕ)
            → j ≡ mmsi
            → held store j ≡ some (part_of (bits true) own mmsi call_sign vendor name c))
          × (parse_sentence f64 chrono libs checks self first
              ≡ (store, ok ParsedMessage.incomplete))
      stored =
          let v : VesselStaticData T = part_of (bits true) own mmsi call_sign vendor name c in
          let (s, store, same, e) = handled self first (bits c) h in
          let absent : held store v.mmsi ≡ none = rw (part_of-mmsi c, same) fresh in
          (
            push_vsd (pull_vsd store v.mmsi).0 v.mmsi v,
            λ j p. rw (
              held-push_vsd (pull_vsd store v.mmsi).0 v.mmsi v j,
              p,
              part_of-mmsi c,
              (==_iff mmsi mmsi).1 refl,
            ),
            e ∙ handle-part c s store ∙ respond_first store v absent,
          )

      answered :
          let once = parse_sentence f64 chrono libs checks self first in
          let between = run f64 chrono libs checks once.0 texts in
          NoneFrom f64 chrono libs checks mmsi once.0 texts
          → CompletesReport between second (bits (not c))
          → (once.1 ≡ ok ParsedMessage.incomplete)
            × ((parse_sentence f64 chrono libs checks between second).1
                ≡ ok (
                    ParsedMessage.vessel_static_data
                      (full_report (bits true) own mmsi call_sign vendor name)))
      answered =
          let v : VesselStaticData T = part_of (bits true) own mmsi call_sign vendor name c in
          let w : VesselStaticData T = part_of (bits true) own mmsi call_sign vendor name (not c) in
          let (store, there, once_is) = stored in
          rw once_is λ others h'.
            let between = run f64 chrono libs checks store texts in
            let (s, store', same, e) = handled between second (bits (not c)) h' in
            let waits : held store' w.mmsi ≡ some v =
              rw
                (
                  part_of-mmsi (not c),
                  same,
                  held-run f64 chrono libs checks mmsi store texts others,
                )
                (there mmsi refl) in
            (
              refl,
              rw (e, handle-part (not c) s store', respond_second store' w v waits, merge-parts c),
            )

  -- The parts A (`bits false`) and B (`bits true`) of the static data of a vessel come in either
  -- order, and any other sentences between them, of which none completes a message of that vessel.
  -- Where the store holds nothing of the vessel, the first part is answered by no message, and the
  -- last by one report with the name of A and the fields of B.
  pub parse_sentence-parts :
      (bits : Bool → Bits) (c : Bool) (self : NmeaParser T) (first second : Text)
      (texts : List Text)
      → ((d : Bool) → pick_u64 (bits d) 38 2 ≡ part_code d)
      → ((d : Bool) → pick_u32 (bits d) 8 30 ≡ mmsi)
      → held self mmsi ≡ none
      → CompletesReport self first (bits c)
      → let once = parse_sentence f64 chrono libs checks self first in
        let between = run f64 chrono libs checks once.0 texts in
        NoneFrom f64 chrono libs checks mmsi once.0 texts
        → CompletesReport between second (bits (not c))
        → (call_sign : Option Text) × (vendor : Text) × (name : Option Text) × (static_part {T = T}
              (bits true)
              own
              true
            ≡ ok (full_report (bits true) own mmsi call_sign vendor none))
          × (static_part {T = T} (bits false) own false ≡ ok (part_a own mmsi name))
          × (once.1 ≡ ok ParsedMessage.incomplete)
          × ((parse_sentence f64 chrono libs checks between second).1
              ≡ ok (
                  ParsedMessage.vessel_static_data
                    (full_report (bits true) own mmsi call_sign vendor name)))
  parse_sentence-parts bits c self first second texts of_part of_vessel fresh h others h' =
      let (name, ea) = static_part-a {T = T} (bits false) own in
      let (call_sign, vendor, eb) = static_part-b {T = T} (bits true) own in
      let a : static_part {T = T} (bits false) own false ≡ ok (part_a own mmsi name) =
        rw (← of_vessel false) ea in
      let b : static_part {T = T} (bits true) own true
          ≡ ok (full_report (bits true) own mmsi call_sign vendor none) =
        rw (← of_vessel true) eb in
      let (p, q) =
        answered bits of_part call_sign vendor name (both call_sign vendor name a b) c self first
          second texts fresh h others h' in
      (call_sign, vendor, name, b, a, p, q)
    where
      both :
          (call_sign : Option Text) (vendor : Text) (name : Option Text)
          → static_part {T = T} (bits false) own false ≡ ok (part_a own mmsi name)
          → static_part {T = T} (bits true) own true
            ≡ ok (full_report (bits true) own mmsi call_sign vendor none)
          → (d : Bool)
          → static_part {T = T} (bits d) own d
            ≡ ok (part_of (bits true) own mmsi call_sign vendor name d)
      both call_sign vendor name a b false = a
      both call_sign vendor name a b true = b
