-- ===== src/Parser/Dispatch/Others.antt =====
-- The sentences of a GSV message in the store, while other sentences come.
use nmea_parser.Common.{ℕ, ◌^◌, ◌<◌, ◌≡◌, refl, ◌∙◌, ◌≢◌, sym, Bool, Bool-cases, inl, inr, ok}
use nmea_parser.Text.{Text, codes, eq_text, split, Lacks}
use nmea_parser.Text.Laws.{eq_text_iff}
use nmea_parser.Numbers.{F64}
use nmea_parser.Chrono.{Chrono}
use nmea_parser.Store.{NmeaParser}
use nmea_parser.Ais.Vdm.T24.Untouched.{handle-saved_fragments}
use nmea_parser.Parser.Talker.{NavigationSystem}
use nmea_parser.Parser.Vdm.{VdmFields, assemble}
use nmea_parser.Parser.Vdm.Halves.{vdm_type}
use nmea_parser.Parser.Vdm.Fragments.{fragment}
use nmea_parser.Parser.Vdm.Interleaved.{fragment-assemble_apart}
use nmea_parser.Gnss.Libraries.{Libraries}
use nmea_parser.Gnss.Dispatch.{dispatch_gnss}
use nmea_parser.Gnss.Gsv
use nmea_parser.Gnss.Gsv.{make_gsv_key, first_field, numbers}
use nmea_parser.Gnss.Gsv.Apart.{fragment-handle_apart, numbers-lt, gsv_key-ne}
use nmea_parser.Gnss.Gsv.Exclusive.{first_field-split-Lacks, gsv_key-ne_half_key}
use nmea_parser.Parser.Dispatch.{parse_sentence}
use nmea_parser.Parser.Dispatch.States.{IsSentence, parse_sentence-state}

-- The sentence is no sentence of a GSV message of that type with that count.
abbrev pub NotOf : Text → ℕ → Text → Type 0
NotOf msg_type msg_count text =
    (sentence : Text) (nav_system : NavigationSystem)
    → IsSentence text (codes "$GSV") sentence nav_system
    → first_field (split b',' sentence) ≡ msg_type
    → (num : ℕ) → numbers (split b',' sentence) ≢ ok (msg_count, num)

module _ {F S T Z : Type 0} (f64 : F64 F) (chrono : Chrono T) (libs : Libraries S Z)
    (checks : Bool) where
  pub parse_sentence-gsv :
      (self : NmeaParser T) (text sentence : Text) (nav_system : NavigationSystem)
      → IsSentence text (codes "$GSV") sentence nav_system
      → parse_sentence f64 chrono libs checks self text
        ≡ Gsv.handle libs.parse_f32 checks sentence nav_system self
  unfolding parse_sentence dispatch_gnss
  parse_sentence-gsv self text sentence nav_system (full_type, s, ef, ei) = rw (ef, ei)

  fragment-gnss_apart :
      (self : NmeaParser T) (sentence_type sentence : Text) (nav_system : NavigationSystem)
      (t : Text)
      → (sentence_type ≡ codes "$GSV"
          → (count num : ℕ) → numbers (split b',' sentence) ≡ ok (count, num)
          → (k : ℕ) → make_gsv_key (first_field (split b',' sentence)) count k ≢ t)
      → fragment (dispatch_gnss f64 chrono libs checks self sentence_type sentence nav_system).0 t
        ≡ fragment self t
  unfolding dispatch_gnss
  fragment-gnss_apart self sentence_type sentence nav_system t apart =
      elim (Bool-cases (eq_text sentence_type (codes "$GSV"))) [
        | inl p ↦ rw p (
            fragment-handle_apart F Z libs.parse_f32 checks sentence nav_system self t
              (apart ((eq_text_iff sentence_type (codes "$GSV")).0 p)))
        | inr p ↦ rw p
      ]

  -- Any other sentence leaves the message's sentences in the store as they are.
  pub fragment-NotOf :
      (self : NmeaParser T) (text msg_type : Text) (msg_count j : ℕ)
      → Lacks b',' msg_type
      → msg_count < 2 ^ 32
      → NotOf msg_type msg_count text
      → fragment
          (parse_sentence f64 chrono libs checks self text).0
          (make_gsv_key msg_type msg_count j)
        ≡ fragment self (make_gsv_key msg_type msg_count j)
  fragment-NotOf self text msg_type msg_count j plain small other =
      let key = make_gsv_key msg_type msg_count j in
      let assembled : (own : Bool) (fields : VdmFields)
          → fragment (assemble checks self (vdm_type own) fields).0 key ≡ fragment self key =
        λ own fields.
          fragment-assemble_apart checks self own fields key
            (λ i c p. gsv_key-ne_half_key msg_type msg_count j i own c _ plain (sym p)) in
      parse_sentence-state f64 chrono libs checks self text
        (λ s. fragment s key ≡ fragment self key) refl (λ own s fields c. assembled own fields)
        (λ own s fields bv c e G.
          rw (handle-saved_fragments F G bv s (assemble checks self (vdm_type own) fields).0 own)
            (assembled own fields))
        (λ sentence_type sentence nav_system c.
          fragment-gnss_apart self sentence_type sentence nav_system key (λ is_gsv count num e k.
            gsv_key-ne (first_field (split b',' sentence)) msg_type count msg_count k j
              (first_field-split-Lacks sentence) plain (numbers-lt _ count num e) small
              (λ et ec. other sentence nav_system (rw (← is_gsv) c) et num (e ∙ rw ec))))
