-- ===== src/Parser/Vdm/Cases.antt =====
-- The two ways of `assemble`: it answers at once, or it looks for the other half of a message.
use nmea_parser.Common.{
  ℕ, ◌≡◌, Bool, true, false, not, Option, some, ◌++◌, ◌==◌, ==_iff, Bool-cases, Option-cases, inl,
  inr, Outcome,
}
use nmea_parser.Text.{Text}
use nmea_parser.Bits.{Bits}
use nmea_parser.Store.{NmeaParser}
use nmea_parser.Parser.Vdm.{VdmFields, channel_or_empty, take_fragment, two_fragments, assemble}
use nmea_parser.Parser.Vdm.Halves.{vdm_type, number, half_key}

-- The fields of a half of a message.
abbrev pub IsHalf : VdmFields → ℕ → Bool → Type 0
IsHalf fields i b =
    (fields.fragment_count ≡ 2) × (fields.message_id ≡ some i) × (fields.fragment_number ≡ number b)

module _ {T : Type 0} (checks : Bool) (self : NmeaParser T) (own : Bool) (fields : VdmFields)
    (P : NmeaParser T × Outcome (Option Bits) → Type 0)
    (stays : (o : Outcome (Option Bits)) → P (self, o))
    (takes : (i : ℕ) (b : Bool) (join : Text → Text)
      → IsHalf fields i b
      → let r = channel_or_empty fields.radio_channel_code in
        P (
          take_fragment checks self
            (half_key own i r b)
            (half_key own i r (not b))
            fields.payload_string
            join)) where
  two_fragments-elim :
      (i : ℕ)
      → fields.fragment_count ≡ 2
      → fields.message_id ≡ some i
      → P (two_fragments checks self (vdm_type own) fields i)
  unfolding two_fragments
  two_fragments-elim i count given =
      let payload = fields.payload_string in
      elim (Bool-cases (fields.fragment_number == 1)) [
        | inl first ↦
            rw (first, count)
              (takes i false (λ p. payload ++ p)
                (count, given, (==_iff fields.fragment_number 1).0 first))
        | inr later ↦ elim (Bool-cases (fields.fragment_number == 2)) [
          | inl second ↦
              rw (later, second, count)
                (takes i true (λ p. p ++ payload)
                  (count, given, (==_iff fields.fragment_number 2).0 second))
          | inr more ↦ rw (later, more) (stays _)
        ]
      ]

  pub assemble-elim : P (assemble checks self (vdm_type own) fields)
  unfolding assemble
  assemble-elim = elim (Bool-cases (fields.fragment_count == 1)) [
    | inl one ↦ rw one (stays _)
    | inr many ↦ elim (Bool-cases (fields.fragment_count == 2)) [
      | inr more ↦ rw (many, more) (stays _)
      | inl two ↦ elim (Option-cases fields.message_id) [
        | inl none_given ↦ rw (many, two, none_given) (stays _)
        | inr (i, e) ↦
            rw (many, two, e) (two_fragments-elim i ((==_iff fields.fragment_count 2).0 two) e)
      ]
    ]
  ]
