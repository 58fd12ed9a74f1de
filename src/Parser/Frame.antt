-- ===== src/Parser/Frame.antt =====
-- lib.rs: the frame of a sentence: characters in front of it, its checksum and its type.
pub mod Checksum
pub mod Sealed
pub mod Cut
use Prim.Native.Nat.{bit_xor}
use nmea_parser.Common.{
  ℕ, ◌+◌, ◌-◌, ◌/◌, ◌%◌, Bool, true, false, ◌&&◌, ◌||◌, not, Option, none, some, List, [], ◌∷◌, ltb,
  leb, ◌==◌, if◌then◌else◌, Outcome, ok, err, panic, ◌>>=◌, ◌>>◌, guard, or_panic, ok_or,
  ParseError, invalid_sentence, corrupted_sentence,
}
use nmea_parser.Text.{Text, eq_text, is_empty, byte_len, get_range, rsplit, is_digit}

-- From the first `$` or `!` on.
unfoldable pub shed_prefix : Text → Option Text
shed_prefix [] = none
shed_prefix (c ∷ t) =
    let rest = shed_prefix t in if c == b'$' || c == b'!' then some (c ∷ t) else rest

-- The sentence before the last `*`, and the two bytes behind it if they are there. The slice panics
-- where the second byte ends inside a character.
unfoldable pub split_checksum : Text → Outcome (Text × Text)
split_checksum sentence = elim (rsplit b'*' sentence) [
  | some (body, given) ↦
      if leb 2 (byte_len given)
      then (or_panic (get_range given 0 2) >>= λ hex. ok (body, hex))
      else ok (body, [])
  | none ↦ ok (sentence, [])
]

-- `checksum ^= c as u8` over the characters.
unfoldable pub xor_chars : ℕ → Text → ℕ
xor_chars checksum [] = checksum
xor_chars checksum (c ∷ t) = xor_chars (bit_xor checksum (c % 256)) t

abbrev pub skip_one : Text → Text
skip_one [] = []
skip_one (c ∷ t) = t

unfoldable pub checksum : Text → ℕ
unfolding xor_chars
checksum sentence = xor_chars 0 (skip_one sentence)

abbrev pub hex_digit : ℕ → ℕ
hex_digit d = if ltb d 10 then 48 + d else 55 + d

-- `format!("{:02X?}", n)` of a u8.
abbrev pub show_hex : ℕ → Text
show_hex n = hex_digit (n / 16) ∷ hex_digit (n % 16) ∷ []

-- A sentence with no checksum, or with less than two bytes of it, passes.
unfoldable pub verify : Text → Text → Outcome Text
unfolding checksum
verify sentence given =
    if not (eq_text (show_hex (checksum sentence)) given) && not (is_empty given)
    then err corrupted_sentence
    else ok sentence

-- The text before the first comma.
unfoldable pub before_comma : Text → Option Text
before_comma [] = none
before_comma (c ∷ t) =
    let rest = before_comma t in
    if c == b',' then some [] else elim rest [ none ↦ none | some a ↦ some (c ∷ a) ]

abbrev pub is_alphanumeric : ℕ → Bool
is_alphanumeric c = is_digit c || (leb b'A' c && leb c b'Z') || (leb b'a' c && leb c b'z')

abbrev pub is_type_char : ℕ → Bool
is_type_char c = is_alphanumeric c || c == b'$' || c == b'!'

unfoldable pub all_type_chars : Text → Bool
all_type_chars [] = true
all_type_chars (c ∷ t) = let rest = all_type_chars t in if is_type_char c then rest else false

-- The sentence without its checksum, and its type.
unfoldable pub frame : Text → Outcome (Text × Text)
unfolding shed_prefix split_checksum verify before_comma all_type_chars
frame text = do
  start ← ok_or (shed_prefix text) invalid_sentence
  (body, given) ← split_checksum start
  sentence ← verify body given
  sentence_type ← ok_or (before_comma sentence) invalid_sentence
  guard (all_type_chars sentence_type) invalid_sentence
  ok (sentence, sentence_type)
