-- ===== src/Text.antt =====
-- Rust's `&str` as the list of its characters' code points, with the operations of the standard
-- library that the crate calls: byte lengths and slices (UTF-8), `split`, `parse` and `format!`.
use Prim.Native.Char.{code}
use Prim.Native.String.{String}
use nmea_parser.Common.{
  ℕ, zero, suc, ◌+◌, ◌-◌, ◌*◌, ◌/◌, ◌%◌, ◌^◌, Bool, true, false, ◌&&◌, ◌||◌, List, [], ◌∷◌, ◌++◌,
  Option, none, some, ltb, leb, ◌==◌, if◌then◌else◌, ◌≡◌,
}
pub mod Laws
pub mod Decimal
pub mod Bytes
pub mod Slices
pub mod Joined
pub mod Integers

abbrev pub Text : Type 0
Text = List ℕ

-- A literal of the source.
abbrev pub codes : String → Text
codes String.[] = []
codes (String.◌∷◌ c s) = code c ∷ codes s

abbrev pub eq_text : Text → Text → Bool
eq_text [] [] = true
eq_text (x ∷ xs) (y ∷ ys) = let rest = eq_text xs ys in if x == y then rest else false
eq_text _ _ = false

abbrev pub is_empty : Text → Bool
is_empty [] = true
is_empty (c ∷ t) = false

-- The bytes of a character in UTF-8, and of a text (`str::len`).
abbrev pub utf8_len : ℕ → ℕ
utf8_len c = if ltb c 0x80 then 1 else if ltb c 0x800 then 2 else if ltb c 0x10000 then 3 else 4

unfoldable pub byte_len : Text → ℕ
byte_len [] = 0
byte_len (c ∷ t) = utf8_len c + byte_len t

cons_front : ℕ → Option (Text × Text) → Option (Text × Text)
cons_front c none = none
cons_front c (some (a, b)) = some (c ∷ a, b)

-- `(&s[..n], &s[n..])`, and `none` where `n` is past the end or inside a character.
unfoldable pub split_at : Text → ℕ → Option (Text × Text)
unfolding cons_front
split_at [] n = if n == 0 then some ([], []) else none
split_at (c ∷ t) n =
    let rest = cons_front c (split_at t (n - utf8_len c)) in
    if n == 0 then some ([], c ∷ t) else if ltb n (utf8_len c) then none else rest

-- `s.get(i..j)`; `&s[i..j]` panics where this is `none`.
unfoldable pub get_range : Text → ℕ → ℕ → Option Text
unfolding split_at
get_range t i j = elim (split_at t i) [
  | none ↦ none
  | some (_, b) ↦ elim (split_at b (j - i)) [ none ↦ none | some (a, _) ↦ some a ]
]

unfoldable pub cons_head : ℕ → List Text → List Text
cons_head c [] = (c ∷ []) ∷ []
cons_head c (t ∷ ts) = (c ∷ t) ∷ ts

-- `s.split(d)`.
unfoldable pub split : ℕ → Text → List Text
unfolding cons_head
split d [] = [] ∷ []
split d (c ∷ t) = let rest = split d t in if c == d then [] ∷ rest else cons_head c rest

-- `s.rfind(d)`, as what stands before the last `d` and behind it.
unfoldable pub rsplit : ℕ → Text → Option (Text × Text)
unfolding cons_front
rsplit d [] = none
rsplit d (c ∷ t) = elim (rsplit d t) [
  | some (a, b) ↦ some (c ∷ a, b)
  | none ↦ if c == d then some ([], t) else none
]

abbrev pub is_digit : ℕ → Bool
is_digit c = leb b'0' c && leb c b'9'

unfoldable pub digits_value : Text → ℕ → Option ℕ
digits_value [] acc = some acc
digits_value (c ∷ t) acc =
    let rest = digits_value t (acc * 10 + (c - 48)) in if is_digit c then rest else none

abbrev below : ℕ → Option ℕ → Option ℕ
below m none = none
below m (some n) = if ltb n m then some n else none

unsigned_digits : ℕ → Text → Option ℕ
unfolding digits_value
unsigned_digits m [] = none
unsigned_digits m (c ∷ t) = below m (digits_value (c ∷ t) 0)

-- `s.parse::<uN>()` with `m = 2 ^ N`: an optional plus sign and at least one digit.
unfoldable pub parse_unsigned : ℕ → Text → Option ℕ
unfolding unsigned_digits
parse_unsigned m [] = none
parse_unsigned m (c ∷ t) = if c == b'+' then unsigned_digits m t else unsigned_digits m (c ∷ t)

-- `format!("{}", n)`; the fuel is the most digits that are written.
unfoldable pub show_digits : ℕ → ℕ → Text → Text
show_digits zero n acc = acc
show_digits (suc fuel) n acc =
    let digit = 48 + n % 10 in
    let rest = show_digits fuel (n / 10) (digit ∷ acc) in if ltb n 10 then digit ∷ acc else rest

-- Every u64 is below 10 ^ 20.
unfoldable pub show_u64 : ℕ → Text
unfolding show_digits
show_u64 n = show_digits 20 n []

-- The character `d` does not stand in the text.
abbrev pub Lacks : ℕ → Text → Type 0
Lacks d [] = Unit
Lacks d (c ∷ t) = ((c == d) ≡ false) × Lacks d t
