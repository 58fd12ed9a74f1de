-- ===== src/Text/Bytes.antt =====
-- The bytes of a text in UTF-8 (`str::as_bytes`), and slices from an index.
use nmea_parser.Common.{
  ℕ, ◌+◌, ◌/◌, ◌%◌, Option, none, some, List, [], ◌∷◌, ◌++◌, ltb, if◌then◌else◌,
}
use nmea_parser.Text.{Text, split_at}

unfoldable pub utf8 : ℕ → List ℕ
utf8 c =
    if ltb c 0x80
    then c ∷ []
    else if ltb c 0x800
    then (0xc0 + c / 64) ∷ (0x80 + c % 64) ∷ []
    else if ltb c 0x10000
    then (0xe0 + c / 4096) ∷ (0x80 + c / 64 % 64) ∷ (0x80 + c % 64) ∷ []
    else (0xf0 + c / 262144) ∷ (0x80 + c / 4096 % 64) ∷ (0x80 + c / 64 % 64) ∷ (0x80 + c % 64) ∷ []

unfoldable pub bytes : Text → List ℕ
unfolding utf8
bytes [] = []
bytes (c ∷ t) = utf8 c ++ bytes t

-- `s.get(i..)`.
unfoldable pub get_from : Text → ℕ → Option Text
unfolding split_at
get_from t i = elim (split_at t i) [ none ↦ none | some (_, b) ↦ some b ]
