-- ===== src/Parser/Vdm/Interleaved.antt =====
-- A half of a message in the store, while other sentences come.
use nmea_parser.Common.{
  ℕ, suc, ◌^◌, ◌<◌, ◌≡◌, ◌≢◌, refl, sym, ap, ◌∙◌, Bool, true, false, not, some, List, [], ◌∷◌, ◌++◌,
  Option-cases, inl, inr, ok, arith, bind-ok,
}
use nmea_parser.Text.{Text, codes, eq_text}
use nmea_parser.Text.Decimal.{parse_unsigned-lt}
use nmea_parser.Store.{NmeaParser, pull_string}
use nmea_parser.Parser.Vdm.{
  VdmFields, channel_or_empty, read_field, read_fields, no_fields, take_fragment, two_fragments,
  assemble,
}
use nmea_parser.Parser.Vdm.Keys.{make_fragment_key-injective}
use nmea_parser.Parser.Vdm.Fragments.{
  fragment, take_fragment_first, take_fragment_second, fragment-push_other, fragment-pull_other,
}
use nmea_parser.Parser.Vdm.Halves.{vdm_type, vdm_type-Lacks, number, number-small, half_key}
use nmea_parser.Parser.Vdm.Cases.{IsHalf, assemble-elim}

-- The number of a message is a u64.
abbrev pub SmallId : VdmFields → Type 0
SmallId fields = (i : ℕ) → fields.message_id ≡ some i → i < 2 ^ 64

read_field-SmallId :
    (num : ℕ) (s : Text) (fields fields' : VdmFields)
    → SmallId fields
    → read_field num s fields ≡ ok fields'
    → SmallId fields'
unfolding read_field
read_field-SmallId num s fields fields' h e i p =
    ground (arith, parse_unsigned-lt (2 ^ 64) s i, h i)

read_fields-SmallId :
    (num : ℕ) (split : List Text) (fields fields' : VdmFields)
    → SmallId fields
    → read_fields num split fields ≡ ok fields'
    → SmallId fields'
unfolding read_fields
read_fields-SmallId num [] fields fields' h e = λ i p. h i (ground arith)
read_fields-SmallId num (s ∷ rest) fields fields' h e =
    let (between, e1, e2) = bind-ok (read_field num s fields) _ e in
    read_fields-SmallId (suc num) rest between fields'
      (read_field-SmallId num s fields between h e1) e2

-- What `read_fields` gives for a sentence.
pub SmallId-read :
    (split : List Text) (fields : VdmFields)
    → read_fields 0 split no_fields ≡ ok fields
    → SmallId fields
SmallId-read split fields e = read_fields-SmallId 0 split no_fields fields (λ i p. cc) e

vdm_type-injective : (own own' : Bool) → vdm_type own ≡ vdm_type own' → own ≡ own'
vdm_type-injective true true e = refl
vdm_type-injective true false e = sym (ap (λ t. eq_text t (codes "!VDM")) e)
vdm_type-injective false true e = ap (λ t. eq_text t (codes "!VDM")) (sym e)
vdm_type-injective false false e = refl

-- The keys of halves of different messages differ.
pub half_key-ne :
    (own own' : Bool) (i i' : ℕ) (r r' : Text) (b b' : Bool)
    → i < 2 ^ 64
    → i' < 2 ^ 64
    → ((own ≡ own') → (i ≡ i') → r ≢ r')
    → half_key own i r b ≢ half_key own' i' r' b'
half_key-ne own own' i i' r r' b b' small small' other e =
    let parts =
      make_fragment_key-injective (vdm_type own) (vdm_type own') i i' 2 2 (number b) (number b') r
        r' (vdm_type-Lacks own) (vdm_type-Lacks own') (omega arith) (omega arith)
        (number-small b, number-small b') e in
    other (vdm_type-injective own own' parts.0) parts.1 parts.4

-- The payloads of the half `b` and of the other one, in order.
abbrev pub in_order : Bool → Text → Text → Text
in_order false payload other = payload ++ other
in_order true payload other = other ++ payload

module _ {T : Type 0} (checks : Bool) (self : NmeaParser T) (own : Bool) (fields : VdmFields) where
  pub assemble-IsHalf :
      (i : ℕ) (b : Bool)
      → IsHalf fields i b
      → let r = channel_or_empty fields.radio_channel_code in
        assemble checks self (vdm_type own) fields
        ≡ take_fragment checks self
            (half_key own i r b)
            (half_key own i r (not b))
            fields.payload_string
            (in_order b fields.payload_string)
  unfolding assemble two_fragments
  assemble-IsHalf i false (count, given, num) = rw (count, given, num, count)
  assemble-IsHalf i true (count, given, num) = rw (count, given, num, count)

  take_fragment-other :
      (own_key other_key payload k : Text) (join : Text → Text)
      → own_key ≢ k
      → other_key ≢ k
      → fragment (take_fragment checks self own_key other_key payload join).0 k ≡ fragment self k
  take_fragment-other own_key other_key payload k join ne ne' =
      elim (Option-cases (fragment self other_key)) [
        | inl e ↦ rw (take_fragment_first checks self own_key other_key payload join e) (
            fragment-push_other (pull_string self other_key).0 own_key payload k ne
            ∙ fragment-pull_other self other_key k ne')
        | inr (q, e) ↦
            rw (take_fragment_second checks self own_key other_key payload q join e)
              (fragment-pull_other self other_key k ne')
      ]

  -- An entry under no key of a half stays as it is.
  pub fragment-assemble_apart :
      (t : Text)
      → ((i : ℕ) (c : Bool) → half_key own i (channel_or_empty fields.radio_channel_code) c ≢ t)
      → fragment (assemble checks self (vdm_type own) fields).0 t ≡ fragment self t
  fragment-assemble_apart t apart =
      assemble-elim checks self own fields (λ s. fragment s.0 t ≡ fragment self t) (λ o. refl)
        (λ i c join half.
          take_fragment-other _ _ fields.payload_string t join (apart i c) (apart i (not c)))

  -- A sentence that is no half of a message leaves the halves of that message as they are.
  pub fragment-assemble :
      (own' : Bool) (i : ℕ) (r : Text) (b : Bool)
      → SmallId fields
      → i < 2 ^ 64
      → ((c : Bool)
          → own ≡ own'
          → IsHalf fields i c
          → channel_or_empty fields.radio_channel_code ≢ r)
      → fragment (assemble checks self (vdm_type own) fields).0 (half_key own' i r b)
        ≡ fragment self (half_key own' i r b)
  fragment-assemble own' i r b small small' other =
      assemble-elim checks self own fields
        (λ s. fragment s.0 (half_key own' i r b) ≡ fragment self (half_key own' i r b)) (λ o. refl)
        (λ i' c join half.
          let ne : (c' : Bool)
              → half_key own i' (channel_or_empty fields.radio_channel_code) c'
                ≢ half_key own' i r b =
            λ c'.
              half_key-ne own own' i' i (channel_or_empty fields.radio_channel_code) r c' b
                (small i' half.1) small' (λ p q. other c p (half.0, half.1 ∙ rw q, half.2)) in
          take_fragment-other _ _ fields.payload_string (half_key own' i r b) join (ne c)
            (ne (not c)))
