-- ===== src/Parser/Dispatch/Growth.antt =====
-- How much of the store one sentence can fill.
use nmea_parser.Common.{
  ℕ, zero, suc, ◌+◌, ◌≤◌, ◌≡◌, inl, inr, Bool, ◌==◌, Option, some, Bool-cases, Option-cases,
  Outcome-cases, Outcome, ok, err, panic, ◌>>=◌, arith, List, [], ◌∷◌, length,
}
use nmea_parser.Text.{Text, codes, eq_text, split}
use nmea_parser.Bits.{Bits, pick_u64}
use nmea_parser.Numbers.{F64}
use nmea_parser.Chrono.{Chrono}
use nmea_parser.Store.{NmeaParser, push_string, pull_string, pull_vsd, strings_count, vsds_count}
use nmea_parser.Store.Laws.{
  strings_count-push_string, strings_count-pull_string, vsds_count-push_vsd, vsds_count-pull_vsd,
}
use nmea_parser.Ais.Types.{Station}
use nmea_parser.Ais.Data.{VesselStaticData}
use nmea_parser.Ais.Vdm.T24
use nmea_parser.Ais.Vdm.T24.{part_number, static_part, respond}
use nmea_parser.Ais.Vdm.T24.Pairs.{held, respond_first, respond_second}
use nmea_parser.Ais.Vdm.T24.Untouched.{handle-saved_fragments}
use nmea_parser.Gnss.Libraries.{Libraries}
use nmea_parser.Gnss.Dispatch.{dispatch_gnss}
use nmea_parser.Gnss.Gsv.{
  collect, count_found, answer, receive, rounds, numbers, first_field, make_gsv_key,
}
use nmea_parser.Gnss.Gsv
use nmea_parser.Parser.Vdm.Untouched.{assemble-saved_vsds}
use nmea_parser.Gnss.Gsv.Untouched.{handle-saved_vsds}
use nmea_parser.Parser.Talker.{NavigationSystem}
use nmea_parser.Parser.Vdm.{VdmFields, take_fragment, assemble}
use nmea_parser.Parser.Vdm.Fragments.{fragment, take_fragment_first, take_fragment_second}
use nmea_parser.Parser.Vdm.Cases.{assemble-elim}
use nmea_parser.Parser.Vdm.Halves.{vdm_type}
use nmea_parser.Parser.Dispatch.{parse_sentence}
use nmea_parser.Parser.Dispatch.States.{run, parse_sentence-state}

-- A fragment is stored only where there is no message yet.
abbrev StoresOrAnswers : {T : Type 0} → NmeaParser T → NmeaParser T × Outcome (Option Bits) → Type 0
StoresOrAnswers self r =
    (strings_count r.0 ≤ suc (strings_count self))
    × ((bv : Bits) → r.1 ≡ ok (some bv) → strings_count r.0 ≤ strings_count self)

module _ {T : Type 0} (checks : Bool) (self : NmeaParser T) where
  take_fragment-StoresOrAnswers :
      (own other payload : Text) (join : Text → Text)
      → StoresOrAnswers self (take_fragment checks self own other payload join)
  take_fragment-StoresOrAnswers own other payload join =
      let pulled = strings_count-pull_string self other in
      elim (Option-cases (fragment self other)) [
        | inl e ↦ rw (take_fragment_first checks self own other payload join e) (
          omega (arith, pulled, strings_count-push_string (pull_string self other).0 own payload),
          λ bv p. cc,
        )
        | inr (q, e) ↦
            rw (take_fragment_second checks self own other payload q join e)
              (omega (arith, pulled), λ bv p. pulled)
      ]

  stays-StoresOrAnswers : (o : Outcome (Option Bits)) → StoresOrAnswers self (self, o)
  stays-StoresOrAnswers o = (omega arith, λ bv p. omega arith)

  assemble-StoresOrAnswers :
      (own : Bool) (fields : VdmFields)
      → StoresOrAnswers self (assemble checks self (vdm_type own) fields)
  assemble-StoresOrAnswers own fields =
      assemble-elim checks self own fields (StoresOrAnswers self) stays-StoresOrAnswers
        (λ i b join half. take_fragment-StoresOrAnswers _ _ fields.payload_string join)

module _ {T : Type 0} (checks : Bool) (self : NmeaParser T) where
  vsds_count-assemble :
      (own : Bool) (fields : VdmFields)
      → vsds_count (assemble checks self (vdm_type own) fields).0 ≡ vsds_count self
  unfolding vsds_count
  vsds_count-assemble own fields = rw (assemble-saved_vsds checks self (vdm_type own) fields)

module _ {T : Type 0} (F G : Type 0) (store : NmeaParser T) where
  vsds_count-respond :
      (vsd : VesselStaticData T)
      → vsds_count (respond {F = F} {G = G} store vsd).0 ≤ suc (vsds_count store)
  vsds_count-respond vsd = elim (Option-cases (held store vsd.mmsi)) [
    | inl e ↦ rw (respond_first {F = F} {G = G} store vsd e) (
        omega (
          arith,
          vsds_count-pull_vsd store vsd.mmsi,
          vsds_count-push_vsd (pull_vsd store vsd.mmsi).0 vsd.mmsi vsd,
        ))
    | inr (w, e) ↦
        rw (respond_second {F = F} {G = G} store vsd w e)
          (omega (arith, vsds_count-pull_vsd store vsd.mmsi))
  ]

  vsds_count-handle :
      (bv : Bits) (s : Station) (own : Bool)
      → vsds_count (T24.handle {F = F} {G = G} bv s store own).0 ≤ suc (vsds_count store)
  unfolding T24.handle
  vsds_count-handle bv s own =
      elim (Outcome-cases (part_number (pick_u64 bv 38 2) >>= static_part {T = T} bv own)) [
        | inl (vsd, e) ↦ rw (e, T24.handle) (vsds_count-respond vsd)
        | inr (inl (e, p)) ↦ rw (p, T24.handle) (omega arith)
        | inr (inr p) ↦ rw (p, T24.handle) (omega arith)
      ]

  strings_count-handle_t24 :
      (bv : Bits) (s : Station) (own : Bool)
      → strings_count (T24.handle {F = F} {G = G} bv s store own).0 ≡ strings_count store
  unfolding strings_count
  strings_count-handle_t24 bv s own = rw (handle-saved_fragments F G bv s store own)

module _ {S T : Type 0} (parse_f32 : Text → Option S) where
  strings_count-collect :
      (nav_system : NavigationSystem) (store : NmeaParser T) (key : ℕ → Text) (i n : ℕ)
      → strings_count (collect parse_f32 nav_system store key i n).0 ≤ strings_count store
  unfolding collect
  strings_count-collect nav_system store key i zero = omega arith
  strings_count-collect nav_system store key i (suc n) = omega (
    arith,
    strings_count-pull_string store (key i),
    strings_count-collect nav_system (pull_string store (key i)).0 key (suc i) n,
  )

module _ {S T : Type 0} (F Z : Type 0) (parse_f32 : Text → Option S) where
  strings_count-answer :
      (nav_system : NavigationSystem) (store : NmeaParser T) (key : ℕ → Text) (msg_count : ℕ)
      (n : Outcome ℕ)
      → strings_count (answer parse_f32 {F = F} {Z = Z} nav_system store key msg_count n).0
        ≤ strings_count store
  unfolding answer
  strings_count-answer nav_system store key msg_count (ok n) =
      elim (Bool-cases (count_found store key 1 n == msg_count)) [
        | inl p ↦ rw p (strings_count-collect parse_f32 nav_system store key 1 n)
        | inr p ↦ rw p (omega arith)
      ]
  strings_count-answer nav_system store key msg_count (err e) = omega arith
  strings_count-answer nav_system store key msg_count panic = omega arith

  strings_count-handle :
      (checks : Bool) (sentence : Text) (nav_system : NavigationSystem) (store : NmeaParser T)
      → strings_count (Gsv.handle parse_f32 {F = F} {Z = Z} checks sentence nav_system store).0
        ≤ suc (strings_count store)
  unfolding Gsv.handle receive
  strings_count-handle checks sentence nav_system store =
      let fields = split b',' sentence in
      elim (Outcome-cases (numbers fields)) [
        | inl ((count, num), e) ↦
            let key = make_gsv_key (first_field fields) count num in
            rw (e, Gsv.handle)
              (omega (
                arith,
                strings_count-push_string store key sentence,
                strings_count-answer nav_system (push_string store key sentence)
                    (make_gsv_key (first_field fields) count) count (rounds checks count),
              ))
        | inr (inl (e, p)) ↦ rw (p, Gsv.handle) (omega arith)
        | inr (inr p) ↦ rw (p, Gsv.handle) (omega arith)
      ]

-- The entries of the store.
abbrev pub entries : {T : Type 0} → NmeaParser T → ℕ
entries self = strings_count self + vsds_count self

module _ {F S T Z : Type 0} (f64 : F64 F) (chrono : Chrono T) (libs : Libraries S Z)
    (checks : Bool) where
  entries-dispatch_gnss :
      (self : NmeaParser T) (sentence_type sentence : Text) (nav_system : NavigationSystem)
      → entries (dispatch_gnss f64 chrono libs checks self sentence_type sentence nav_system).0
        ≤ suc (entries self)
  unfolding dispatch_gnss vsds_count
  entries-dispatch_gnss self sentence_type sentence nav_system =
      elim (Bool-cases (eq_text sentence_type (codes "$GSV"))) [
        | inl p ↦
            rw (p, handle-saved_vsds F Z libs.parse_f32 checks sentence nav_system self)
              (omega
                (arith, strings_count-handle F Z libs.parse_f32 checks sentence nav_system self))
        | inr p ↦ rw p (omega arith)
      ]

  entries-assemble :
      (self : NmeaParser T) (own : Bool) (fields : VdmFields)
      → entries (assemble checks self (vdm_type own) fields).0 ≤ suc (entries self)
  entries-assemble self own fields = omega (
    arith,
    (assemble-StoresOrAnswers checks self own fields).0,
    vsds_count-assemble checks self own fields,
  )

  entries-handle :
      (G : Type 0) (self : NmeaParser T) (own : Bool) (s : Station) (fields : VdmFields) (bv : Bits)
      → (assemble checks self (vdm_type own) fields).1 ≡ ok (some bv)
      → entries
          (T24.handle {F = F} {G = G} bv s (assemble checks self (vdm_type own) fields).0 own).0
        ≤ suc (entries self)
  entries-handle G self own s fields bv e =
      let self' = (assemble checks self (vdm_type own) fields).0 in
      omega (
        arith,
        (assemble-StoresOrAnswers checks self own fields).1 bv e,
        vsds_count-assemble checks self own fields,
        vsds_count-handle F G self' bv s own,
        strings_count-handle_t24 F G self' bv s own,
      )

  entries-parse_sentence :
      (self : NmeaParser T) (text : Text)
      → entries (parse_sentence f64 chrono libs checks self text).0 ≤ suc (entries self)
  entries-parse_sentence self text =
      parse_sentence-state f64 chrono libs checks self text (λ s. entries s ≤ suc (entries self))
        (omega arith) (λ own s fields c. entries-assemble self own fields)
        (λ own s fields bv c e G. entries-handle G self own s fields bv e)
        (λ sentence_type sentence nav_system c.
          entries-dispatch_gnss self sentence_type sentence nav_system)

  -- Behind any list of sentences the store holds at most one entry more for each of them, whatever
  -- they are.
  pub entries-run :
      (self : NmeaParser T) (texts : List Text)
      → entries (run f64 chrono libs checks self texts) ≤ entries self + length texts
  entries-run self [] = omega arith
  entries-run self (text ∷ texts) = omega (
    arith,
    entries-parse_sentence self text,
    entries-run (parse_sentence f64 chrono libs checks self text).0 texts,
  )
