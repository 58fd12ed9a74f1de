-- ===== src/Parser/Vdm.antt =====
-- lib.rs and util.rs: the fields of a `!xxVDM` or `!xxVDO` sentence, and the fragments of a message
-- that is sent in two of them.
pub mod Keys
pub mod Untouched
pub mod Fragments
pub mod Halves
pub mod Cases
pub mod Interleaved
pub mod Exclusive
pub mod Progress
use nmea_parser.Common.{
  ℕ, suc, ◌+◌, ◌^◌, Bool, true, false, Option, none, some, List, [], ◌∷◌, ◌++◌, ◌==◌, if◌then◌else◌,
  Outcome, ok, err, panic, ◌>>=◌, ParseError, invalid_sentence,
}
use nmea_parser.Text.{Text, split, parse_unsigned, show_u64}
use nmea_parser.Bits.{Bits, parse_payload}
use nmea_parser.Store.{NmeaParser, push_string, pull_string}

pub record VdmFields : Type 0 where
  pub fragment_count : ℕ
  pub fragment_number : ℕ
  pub message_id : Option ℕ
  pub radio_channel_code : Option Text
  pub payload_string : Text

abbrev pub no_fields : VdmFields
no_fields = record {
  fragment_count = 0;
  fragment_number = 0;
  message_id = none;
  radio_channel_code = none;
  payload_string = [];
}

-- One field of the sentence, by its number.
unfoldable pub read_field : ℕ → Text → VdmFields → Outcome VdmFields
read_field num s fields =
    if num == 1
    then elim (parse_unsigned (2 ^ 8) s) [
      | some i ↦ ok (record fields { fragment_count = i })
      | none ↦ err invalid_sentence
    ]
    else if num == 2
    then elim (parse_unsigned (2 ^ 8) s) [
      | some i ↦ ok (record fields { fragment_number = i })
      | none ↦ err invalid_sentence
    ]
    else if num == 3
    then ok (record fields { message_id = parse_unsigned (2 ^ 64) s })
    else if num == 4
    then ok (record fields { radio_channel_code = some s })
    else if num == 5
    then ok (record fields { payload_string = s })
    else ok fields

unfoldable pub read_fields : ℕ → List Text → VdmFields → Outcome VdmFields
unfolding read_field
read_fields num [] fields = ok fields
read_fields num (s ∷ rest) fields = read_field num s fields >>= read_fields (suc num) rest

-- `make_fragment_key`; the numbers are u8 and u64.
unfoldable pub make_fragment_key : Text → ℕ → ℕ → ℕ → Text → Text
make_fragment_key sentence_type message_id fragment_count fragment_number radio_channel_code =
    sentence_type
    ++ (b','
        ∷ (show_u64 fragment_count
            ++ (b','
                ∷ (show_u64 fragment_number
                    ++ (b',' ∷ (show_u64 message_id ++ (b',' ∷ radio_channel_code)))))))

abbrev pub channel_or_empty : Option Text → Text
channel_or_empty none = []
channel_or_empty (some c) = c

abbrev pub to_some : Outcome Bits → Outcome (Option Bits)
to_some (ok bv) = ok (some bv)
to_some (err e) = ok none
to_some panic = panic

module _ {T : Type 0} (overflow_checks : Bool) where
  -- A fragment whose other half may be in the store under `other_key`; `join` puts them in order.
  unfoldable pub take_fragment :
      NmeaParser T → Text → Text → Text → (Text → Text) → NmeaParser T × Outcome (Option Bits)
  take_fragment self own_key other_key payload_string join =
      let (self', found) = pull_string self other_key in
      elim found [
        | some p ↦ (self', to_some (parse_payload overflow_checks (join p)))
        | none ↦ (push_string self' own_key payload_string, ok none)
      ]

  unfoldable pub two_fragments :
      NmeaParser T → Text → VdmFields → ℕ → NmeaParser T × Outcome (Option Bits)
  unfolding take_fragment
  two_fragments self sentence_type fields msg_id =
      let channel = channel_or_empty fields.radio_channel_code in
      let payload = fields.payload_string in
      let key1 = make_fragment_key sentence_type msg_id fields.fragment_count 1 channel in
      let key2 = make_fragment_key sentence_type msg_id fields.fragment_count 2 channel in
      if fields.fragment_number == 1
      then take_fragment self key1 key2 payload (λ p. payload ++ p)
      else if fields.fragment_number == 2
      then take_fragment self key2 key1 payload (λ p. p ++ payload)
      else (self, ok none)

  -- The bits of the message if this sentence completes it.
  unfoldable pub assemble : NmeaParser T → Text → VdmFields → NmeaParser T × Outcome (Option Bits)
  unfolding two_fragments
  assemble self sentence_type fields =
      if fields.fragment_count == 1
      then (self, to_some (parse_payload overflow_checks fields.payload_string))
      else if fields.fragment_count == 2
      then elim fields.message_id [
        | some msg_id ↦ two_fragments self sentence_type fields msg_id
        | none ↦ (self, ok none)
      ]
      else (self, ok none)
