-- ===== src/Bits/Layout/Texts.antt =====
-- A text among the fields of a message.
use nmea_parser.Common.{ℕ, zero, suc, ◌%◌, ◌≤◌, ◌≡◌, refl, ap, [], ◌∷◌, ◌++◌, length, ok}
use nmea_parser.Text.{Text}
use nmea_parser.Bits.{Bits, pick_string, trim_end}
use nmea_parser.Bits.Pick.{to_bits}
use nmea_parser.Bits.Chars.{IsAisText, encode_text, pick_string-encode_text}
use nmea_parser.Bits.Layout.{Fields, encode, encode-append, total_width, length-encode}

-- The six bits of the first character, and 0, which is `@`, behind the end.
abbrev first_code : Text → ℕ
first_code [] = 0
first_code (c ∷ t) = c % 64

abbrev rest_of : Text → Text
rest_of [] = []
rest_of (c ∷ t) = t

-- The fields of a text of at most `n` characters.
abbrev pub text_fields : ℕ → Text → Fields
text_fields zero t = []
text_fields (suc n) t = (6, first_code t) ∷ text_fields n (rest_of t)

encode-text_fields : (n : ℕ) (t : Text) → encode (text_fields n t) ≡ encode_text n t
encode-text_fields zero t = refl
encode-text_fields (suc n) [] = ap (λ (bs : Bits). to_bits 6 0 ++ bs) (encode-text_fields n [])
encode-text_fields (suc n) (c ∷ t) =
    ap (λ (bs : Bits). to_bits 6 (c % 64) ++ bs) (encode-text_fields n t)

-- A text that fits its field: of AIS characters, with no blank at its end.
abbrev pub IsFieldText : ℕ → Text → Type 0
IsFieldText n t = (length t ≤ n) × IsAisText t × (trim_end t ≡ t)

-- The text in the fields behind `before`.
pub pick_text :
    (before after : Fields) (n : ℕ) (t : Text)
    → IsFieldText n t
    → pick_string (encode (before ++ (text_fields n t ++ after))) (total_width before) n ≡ ok t
pick_text before after n t h =
    rw
      (
        encode-append before (text_fields n t ++ after),
        encode-append (text_fields n t) after,
        encode-text_fields n t,
        ← length-encode before,
      )
      (pick_string-encode_text n t (encode before) (encode after) h.0 h.1 h.2)
