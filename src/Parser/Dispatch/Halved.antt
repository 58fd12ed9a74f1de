-- ===== src/Parser/Dispatch/Halved.antt =====
-- The two sentences of an AIS message, put together from their fields.
use nmea_parser.Common.{
  ℕ, ◌^◌, ◌<◌, ◌≡◌, refl, ◌∙◌, Bool, true, false, some, List, [], ◌∷◌, ◌++◌, map, ok, arith,
}
use nmea_parser.Text.{Text, Lacks, codes, show_u64, parse_unsigned, digits_value}
use nmea_parser.Text.Decimal.{parse_unsigned-show_u64, show_u64-Lacks}
use nmea_parser.Text.Joined.{join, AllLack, split-join, join-Lacks}
use nmea_parser.Bits.Armor.{armor, AllBelow64}
use nmea_parser.Ais.Types.{Station}
use nmea_parser.Parser.Frame.{checksum, show_hex}
use nmea_parser.Parser.Frame.Sealed.{frame-sealed, frame-plain}
use nmea_parser.Parser.Talker.{NavigationSystem}
use nmea_parser.Parser.Vdm.{VdmFields, no_fields, read_fields}
use nmea_parser.Parser.Vdm.Halves.{number, number-small}
use nmea_parser.Parser.Dispatch.Single.{
  mobile_type, mobile_type-star, mobile_type-comma, mobile-Marked, typed-mobile, identify-mobile,
  armor-Lacks,
}
use nmea_parser.Parser.Dispatch.Interleaved.{HoldsHalf}

abbrev pub half_fields : ℕ → Text → Bool → List ℕ → List Text
half_fields i channel b values =
    codes "2" ∷ show_u64 (number b) ∷ show_u64 i ∷ channel ∷ map armor values ∷ codes "0" ∷ []

-- The half `b` of the message `i` of a mobile station on a channel, with its checksum and whatever
-- stands in front of its mark and behind the checksum.
abbrev pub half_sentence : Text → Text → Bool → ℕ → Text → Bool → List ℕ → Text
half_sentence pre tail own i channel b values =
    let s = join b',' (mobile_type own) (half_fields i channel b values) in
    pre ++ (s ++ (b'*' ∷ (show_hex (checksum s) ++ tail)))

abbrev read_half : ℕ → Text → Bool → List ℕ → VdmFields
read_half i channel b values = record {
  fragment_count = 2;
  fragment_number = number b;
  message_id = some i;
  radio_channel_code = some channel;
  payload_string = map armor values;
}

read_two : parse_unsigned (2 ^ 8) (codes "2") ≡ some 2
unfolding parse_unsigned digits_value
read_two = refl

number-byte : (b : Bool) → number b < 2 ^ 8
number-byte true = omega arith
number-byte false = omega arith

module _ (own : Bool) (i : ℕ) (channel : Text) (b : Bool) (values : List ℕ) (small : i < 2 ^ 64)
    (below : AllBelow64 values) (plain : Lacks b',' channel) (starless : Lacks b'*' channel) where
  half-AllLack :
      (d : ℕ)
      → d < 48
      → Lacks d (mobile_type own)
      → Lacks d channel
      → AllLack d (mobile_type own) (half_fields i channel b values)
  half-AllLack d low h k = (
    h,
    (
      (ground arith, tt),
      (
        show_u64-Lacks (number b) d low,
        (show_u64-Lacks i d low, (k, (armor-Lacks d values low below, (ground arith, tt)))),
      ),
    ),
  )

  read-half :
      (t : Text)
      → read_fields 0 (t ∷ half_fields i channel b values) no_fields
        ≡ ok (read_half i channel b values)
  unfolding read_fields
  read-half t = rw (
    read_two,
    parse_unsigned-show_u64 (2 ^ 8) (number b) (number-small b) (number-byte b),
    parse_unsigned-show_u64 (2 ^ 64) i (omega arith) small,
  )

  -- The text of a half is read as that half.
  pub half_sentence-HoldsHalf :
      (pre tail : Text)
      → Lacks b'$' pre × Lacks b'!' pre
      → Lacks b'*' tail
      → HoldsHalf
          (half_sentence pre tail own i channel b values)
          own
          Station.mobile_station
          i
          channel
          b
          (map armor values)
  half_sentence-HoldsHalf pre tail clear no_star =
      let s = join b',' (mobile_type own) (half_fields i channel b values) in
      let commas = half-AllLack b',' (omega arith) (mobile_type-comma own) plain in
      let stars =
        join-Lacks b'*' b',' (mobile_type own) (half_fields i channel b values) refl
          (half-AllLack b'*' (omega arith) (mobile_type-star own) starless) in
      (
        read_half i channel b values,
        (
          (s, mobile_type own),
          NavigationSystem.other,
          frame-sealed pre s tail clear.0 clear.1 (mobile-Marked own _) no_star stars
              ∙ frame-plain s (mobile-Marked own _) stars
              ∙ typed-mobile own _,
          identify-mobile own,
          rw (split-join b',' (mobile_type own) (half_fields i channel b values) commas)
              (read-half (mobile_type own)),
        ),
        (refl, refl, refl),
        refl,
        refl,
      )
