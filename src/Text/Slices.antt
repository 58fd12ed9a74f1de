-- ===== src/Text/Slices.antt =====
-- Slices of a text: at its start, behind an ASCII character, and by the places of two cuts.
use nmea_parser.Common.{ℕ, suc, ◌+◌, ◌-◌, ◌<◌, ◌≡◌, refl, some, [], ◌∷◌, ltb, ◌==◌, false, arith}
use nmea_parser.Text.{Text, utf8_len, split_at, get_range}

pub split_at-zero : (t : Text) → split_at t 0 ≡ some ([], t)
unfolding split_at
split_at-zero [] = refl
split_at-zero (c ∷ t) = refl

pub split_at-ascii :
    (c k : ℕ) (t a b : Text)
    → c < 0x80
    → split_at t k ≡ some (a, b)
    → split_at (c ∷ t) (suc k) ≡ some (c ∷ a, b)
unfolding split_at
split_at-ascii c k t a b h e =
    let one : utf8_len c ≡ 1 = ground arith in
    let back : suc k - 1 ≡ k = omega arith in
    let behind : (suc k == 0) ≡ false = ground arith in
    let past : ltb (suc k) 1 ≡ false = ground arith in rw (one, back, behind, past, e)

-- Slices by the places where the text can be cut.
pub get_range-front :
    (s : Text) (w : ℕ) (a b : Text) → split_at s w ≡ some (a, b) → get_range s 0 w ≡ some a
unfolding get_range
get_range-front s w a b e =
    let all : w - 0 ≡ w = omega arith in rw (get_range, split_at-zero s, all, e)

pub get_range-behind :
    (s : Text) (w p q k : ℕ) (a b c d : Text)
    → p ≡ w + q
    → split_at s w ≡ some (a, b)
    → split_at b (q + k) ≡ some (c, d)
    → get_range s w (p + k) ≡ some c
unfolding get_range
get_range-behind s w p q k a b c d h e e' =
    let rest : p + k - w ≡ q + k = omega arith in rw (get_range, e, rest, e')
