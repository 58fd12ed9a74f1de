-- ===== src/Errors.antt =====
-- error.rs with the texts of errors, which the outcomes of the handlers leave out.
use nmea_parser.Common.{
  ◌≡◌, ap, sym, refl, if◌then◌else◌, ◌==◌, [], ◌∷◌, ◌∙◌, ◌++◌, append-cancel, ParseError,
  unsupported_sentence_type, corrupted_sentence, invalid_sentence,
}
use nmea_parser.Text.{Text, codes}

-- A `ParseError` as its variant and its text.
pub record TextedError : Type 0 where
  pub variant : ParseError
  pub text : Text

-- `From<String>`.
unfoldable pub from_string : Text → TextedError
from_string s = record { variant = invalid_sentence; text = s }

-- `From<ParseIntError>` and `From<ParseFloatError>`, for the error of the library as its text.
unfoldable pub from_parse_error : {E : Type 0} → (E → Text) → E → TextedError
from_parse_error format e = record { variant = invalid_sentence; text = format e }

abbrev variant_text : ParseError → Text
variant_text unsupported_sentence_type = codes "Unsupported NMEA sentence type: "
variant_text corrupted_sentence = codes "Corrupted NMEA sentence: "
variant_text invalid_sentence = codes "Invalid NMEA sentence: "

-- `Display`.
unfoldable pub fmt : TextedError → Text
fmt e = variant_text e.variant ++ e.text

-- The variant that a printed error begins with.
abbrev variant_of : Text → ParseError
variant_of [] = invalid_sentence
variant_of (c ∷ t) =
    if c == b'U'
    then unsupported_sentence_type
    else if c == b'C'
    then corrupted_sentence
    else invalid_sentence

variant_of-variant_text : (v : ParseError) (s : Text) → variant_of (variant_text v ++ s) ≡ v
variant_of-variant_text unsupported_sentence_type s = refl
variant_of-variant_text corrupted_sentence s = refl
variant_of-variant_text invalid_sentence s = refl

-- The printed error tells its variant and its text.
fmt-injective : (a b : TextedError) → fmt a ≡ fmt b → (a.variant ≡ b.variant) × (a.text ≡ b.text)
unfolding fmt
fmt-injective a b e =
    let same : a.variant ≡ b.variant =
      sym (variant_of-variant_text a.variant a.text)
      ∙ ap variant_of e
      ∙ variant_of-variant_text b.variant b.text in
    (same, append-cancel (variant_text a.variant) (e ∙ rw same))
