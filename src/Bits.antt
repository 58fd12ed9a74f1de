-- ===== src/Bits.antt =====
-- util.rs: the bit vector of an AIS message and the fields that are picked from it.
-- A `BitVec` is the list of its bits. A u64 keeps its 64 bits by `% 2 ^ 64`.
pub mod Pick
pub mod Signed
pub mod Armor
pub mod Packing
pub mod Chars
pub mod Layout
use nmea_parser.Common.{
  ℕ, zero, suc, ◌+◌, ◌-◌, ◌*◌, ◌/◌, ◌%◌, ◌^◌, Bool, true, false, ◌||◌, ◌&&◌, List, [], ◌∷◌, ◌++◌,
  Option, none, some, ltb, leb, ◌==◌, if◌then◌else◌, get_elem?, ℤ, pos, sub_ℕ, Outcome, ok, panic,
  ◌>>=◌,
}
use nmea_parser.Text.{Text}

abbrev pub Bits : Type 0
Bits = List Bool

abbrev pub bit : Bool → ℕ
bit true = 1
bit false = 0

-- `res = (res << 1) | (*b as u64)`, and `res <<= 1` past the end.
shift_in : ℕ → Option Bool → ℕ
shift_in res none = res * 2 % 2 ^ 64
shift_in res (some b) = res * 2 % 2 ^ 64 + bit b

pick_loop : Bits → ℕ → ℕ → ℕ → ℕ
unfolding shift_in
pick_loop bv index zero res = res
pick_loop bv index (suc n) res = pick_loop bv (suc index) n (shift_in res (get_elem? bv index))

unfoldable pub pick_u64 : Bits → ℕ → ℕ → ℕ
unfolding pick_loop
pick_u64 bv index len = pick_loop bv index len 0

-- `x as i64`.
abbrev to_i64 : ℕ → ℤ
to_i64 x = if ltb x (2 ^ 63) then pos x else sub_ℕ x (2 ^ 64)

-- The sign bit is `1 << (len - 1)`; `res & sign_bit` and `res & (sign_bit - 1)` are written by
-- division and remainder.
unfoldable pub pick_i64 : Bits → ℕ → ℕ → ℤ
unfolding pick_loop
pick_i64 bv index len =
    let res = pick_loop bv index len 0 in
    let sign_bit = 2 ^ (len - 1) in
    if res / sign_bit % 2 == 1 then sub_ℕ (res % sign_bit) sign_bit else to_i64 res

-- `char::is_whitespace`.
abbrev is_whitespace : ℕ → Bool
is_whitespace c =
    (leb 9 c && leb c 13)
    || c == 0x20
    || c == 0x85
    || c == 0xa0
    || c == 0x1680
    || (leb 0x2000 c && leb c 0x200a)
    || c == 0x2028
    || c == 0x2029
    || c == 0x202f
    || c == 0x205f
    || c == 0x3000

trim_step : ℕ → Text → Text
trim_step c [] = if is_whitespace c then [] else c ∷ []
trim_step c (x ∷ r) = c ∷ x ∷ r

unfoldable pub trim_end : Text → Text
unfolding trim_step
trim_end [] = []
trim_end (c ∷ t) = trim_step c (trim_end t)

-- One character of `pick_string`: `none` ends the string.
pick_char : ℕ → Outcome (Option ℕ)
pick_char ch =
    if ch == 0
    then ok none
    else if ltb ch 32
    then ok (some (64 + ch))
    else if ltb ch 64
    then ok (some ch)
    else panic

push_char : Option ℕ → Outcome Text → Outcome Text
push_char none rest = ok []
push_char (some c) rest = rest >>= λ t. ok (c ∷ t)

pick_chars : Bits → ℕ → ℕ → Outcome Text
pick_chars bv index zero = ok []
pick_chars bv index (suc n) =
    let rest = pick_chars bv (index + 6) n in
    pick_char (pick_u64 bv index 6 % 2 ^ 32) >>= λ c. push_char c rest

unfoldable pub pick_string : Bits → ℕ → ℕ → Outcome Text
unfolding pick_chars pick_char push_char trim_end
pick_string bv index char_count = do res ← pick_chars bv index char_count; ok (trim_end res)

-- `(c as u8) - 48`, then `if ci > 40 { ci -= 8 }`. A build with overflow checks panics where the
-- subtraction wraps; any other build goes on with the wrapped byte.
unfoldable pub payload_value : Bool → ℕ → Outcome ℕ
payload_value overflow_checks c =
    let b = c % 256 in
    let ci = (b + 256 - 48) % 256 in
    if ltb b 48 && overflow_checks then panic else ok (if ltb 40 ci then ci - 8 else ci)

-- Bits 5 to 0 of a value.
unfoldable pub six_bits : ℕ → Bits
six_bits ci =
    (ci / 32 % 2 == 1)
    ∷ (ci / 16 % 2 == 1)
    ∷ (ci / 8 % 2 == 1)
    ∷ (ci / 4 % 2 == 1)
    ∷ (ci / 2 % 2 == 1)
    ∷ (ci % 2 == 1)
    ∷ []

unfoldable pub parse_payload : Bool → Text → Outcome Bits
unfolding payload_value
parse_payload overflow_checks [] = ok []
parse_payload overflow_checks (c ∷ t) = do
  ci ← payload_value overflow_checks c
  rest ← parse_payload overflow_checks t
  ok (six_bits ci ++ rest)
