-- ===== src/Gnss/Coordinates/Digits.antt =====
-- Texts of digits around a decimal point, as the coordinates are: their bytes are their characters,
-- so that every slice of them is at the border of a character.
use nmea_parser.Common.{
  ℕ, zero, suc, ◌+◌, ◌≤◌, ◌<◌, ◌≡◌, refl, ◌⊎◌, inl, inr, ◌↔◌, true, false, ◌&&◌, ltb, ◌==◌,
  if◌then◌else◌, Bool-cases, ltb→lt, ◌/◌, ◌%◌, some, List, [], ◌∷◌, ◌++◌, take, drop, get_elem?,
  arith,
}
use nmea_parser.Text.{Text, is_digit, split_at}
use nmea_parser.Text.Slices.{split_at-zero, split_at-ascii}
use nmea_parser.Text.Bytes.{utf8, bytes}
use nmea_parser.Gnss.Coordinates.{is_digit_byte, all_digits, count_digits, is_degrees}

-- `n` digits and a decimal point with a digit behind it, whatever follows.
abbrev pub IsDegrees : ℕ → Text → Type 0
IsDegrees zero [] = ⊥
IsDegrees zero (c ∷ []) = ⊥
IsDegrees zero (c ∷ d ∷ t) = (c ≡ b'.') × (is_digit d ≡ true)
IsDegrees (suc n) [] = ⊥
IsDegrees (suc n) (c ∷ t) = (is_digit c ≡ true) × IsDegrees n t

-- The first byte of a character of more than one byte is above every ASCII character.
bytes-cases :
    (c : ℕ) (t : Text)
    → ((c < 0x80) × (bytes (c ∷ t) ≡ c ∷ bytes t))
      ⊎ ((b : ℕ) × (rest : List ℕ) × (0x80 ≤ b) × (0x80 ≤ c) × (bytes (c ∷ t) ≡ b ∷ rest))
unfolding bytes utf8
bytes-cases c t = elim (Bool-cases (ltb c 0x80)) [
  | inl p ↦ inl (ltb→lt c 0x80 p, rw p)
  | inr p ↦
      let high : 0x80 ≤ c = ground arith in
      elim (Bool-cases (ltb c 0x800)) [
        | inl q ↦ inr (0xc0 + c / 64, (0x80 + c % 64) ∷ bytes t, omega arith, high, rw (p, q))
        | inr q ↦ elim (Bool-cases (ltb c 0x10000)) [
          | inl r ↦ inr (
            0xe0 + c / 4096,
            (0x80 + c / 64 % 64) ∷ (0x80 + c % 64) ∷ bytes t,
            omega arith,
            high,
            rw (p, q, r),
          )
          | inr r ↦ inr (
            0xf0 + c / 262144,
            (0x80 + c / 4096 % 64) ∷ (0x80 + c / 64 % 64) ∷ (0x80 + c % 64) ∷ bytes t,
            omega arith,
            high,
            rw (p, q, r),
          )
        ]
      ]
]

digit-ascii : (c : ℕ) → is_digit c ≡ true → c < 0x80
digit-ascii c h = ground arith

high-not_digit : (b : ℕ) → 0x80 ≤ b → is_digit b ≡ false
high-not_digit b h = ground arith

is_degrees-suc :
    (n b : ℕ) (bs : List ℕ) → is_degrees (suc n) (b ∷ bs) ≡ (is_digit b && is_degrees n bs)
unfolding is_degrees all_digits
is_degrees-suc n b bs = ground arith

is_degrees-zero :
    (b : ℕ) (bs : List ℕ) → is_degrees 0 (b ∷ bs) ≡ (b == b'.' && is_digit_byte (get_elem? bs 0))
unfolding is_degrees all_digits
is_degrees-zero b bs = refl

is_degrees-nil : (n : ℕ) → is_degrees n [] ≡ false
unfolding is_degrees all_digits
is_degrees-nil zero = refl
is_degrees-nil (suc n) = refl

bytes-nil : bytes [] ≡ []
unfolding bytes
bytes-nil = refl

no_text : (n : ℕ) → (is_degrees n (bytes []) ≡ true) ↔ ⊥
unfolding bytes
no_text n = rw (is_degrees-nil n) (ground arith)

-- The test of the code accepts exactly the texts of `n` digits and a point with a digit behind it.
pub is_degrees-IsDegrees : (n : ℕ) (s : Text) → (is_degrees n (bytes s) ≡ true) ↔ IsDegrees n s
is_degrees-IsDegrees zero [] = no_text zero
is_degrees-IsDegrees (suc n) [] = no_text (suc n)
is_degrees-IsDegrees zero (c ∷ []) = elim (bytes-cases c []) [
  | inl (small, e) ↦ rw (e, is_degrees-zero c (bytes []), bytes-nil) (ground arith)
  | inr (b, rest, high, hc, e) ↦ rw (e, is_degrees-zero b rest) (ground arith)
]
is_degrees-IsDegrees zero (c ∷ d ∷ t) = elim (bytes-cases c (d ∷ t)) [
  | inr (b, rest, high, hc, e) ↦ rw (e, is_degrees-zero b rest) (ground arith)
  | inl (small, e) ↦ elim (bytes-cases d t) [
    | inl (small', e') ↦ rw (e, is_degrees-zero c (bytes (d ∷ t)), e') (ground arith)
    | inr (b, rest, high, hc, e') ↦ rw (e, is_degrees-zero c (bytes (d ∷ t)), e') (ground arith)
  ]
]
is_degrees-IsDegrees (suc n) (c ∷ t) = elim (bytes-cases c t) [
  | inl (small, e) ↦ rw (e, is_degrees-suc n c (bytes t)) (ground (arith, is_degrees-IsDegrees n t))
  | inr (b, rest, high, hc, e) ↦
      rw (e, is_degrees-suc n b rest, high-not_digit b high, high-not_digit c hc) (ground arith)
]

-- The digits that a text begins with.
abbrev pub digit_prefix : Text → Text
digit_prefix [] = []
digit_prefix (c ∷ t) = let rest = digit_prefix t in if is_digit c then c ∷ rest else []

-- A slice up to the end of the digits.
split_at-count_digits :
    (t : Text) → (b : Text) × (split_at t (count_digits (bytes t)) ≡ some (digit_prefix t, b))
unfolding count_digits
split_at-count_digits [] = ([], rw bytes-nil (split_at-zero []))
split_at-count_digits (c ∷ t) = elim (bytes-cases c t) [
  | inl (small, e) ↦ elim (Bool-cases (is_digit c)) [
    | inl p ↦
        let (b, e') = split_at-count_digits t in
        (b, rw (e, p) (split_at-ascii c (count_digits (bytes t)) t (digit_prefix t) b small e'))
    | inr p ↦ (c ∷ t, rw (e, p) (split_at-zero (c ∷ t)))
  ]
  | inr (b, rest, high, hc, e) ↦
      (c ∷ t, rw (e, high-not_digit b high, high-not_digit c hc) (split_at-zero (c ∷ t)))
]

bytes-digit : (c : ℕ) (t : Text) → is_digit c ≡ true → bytes (c ∷ t) ≡ c ∷ bytes t
bytes-digit c t h = elim (bytes-cases c t) [
  | inl (small, e) ↦ e
  | inr (b, rest, high, hc, e) ↦ absurd (ground (arith, high-not_digit c hc))
]

-- The slice of the degrees.
pub split_at-digits :
    (w m n : ℕ) (s : Text)
    → n ≡ w + m
    → IsDegrees n s
    → (split_at s w ≡ some (take w s, drop w s))
      × IsDegrees m (drop w s)
      × (drop (suc n) (bytes s) ≡ drop (suc m) (bytes (drop w s)))
split_at-digits zero m n s e h =
    let same : n ≡ m = omega arith in (split_at-zero s, rw (← same) h, rw same)
split_at-digits (suc w) m zero s e h = absurd (omega arith)
split_at-digits (suc w) m (suc n) [] e h = absurd h
split_at-digits (suc w) m (suc n) (c ∷ t) e h =
    let (p, k, d) = split_at-digits w m n t (omega arith) h.1 in
    (
      split_at-ascii c w t (take w t) (drop w t) (digit-ascii c h.0) p,
      k,
      rw (bytes-digit c t h.0) d,
    )

suc_add : (a b : ℕ) → suc a + b ≡ suc (a + b)
suc_add a b = omega arith

one_add : (b : ℕ) → 1 + b ≡ suc b
one_add b = omega arith

bytes-point : (t : Text) → bytes (b'.' ∷ t) ≡ b'.' ∷ bytes t
unfolding bytes utf8
bytes-point t = refl

-- The slice of the minutes.
pub split_at-minutes :
    (m : ℕ) (s : Text)
    → IsDegrees m s
    → (b : Text) × (split_at s (suc m + count_digits (drop (suc m) (bytes s)))
        ≡ some (take m s ++ (b'.' ∷ digit_prefix (drop (suc m) s)), b))
split_at-minutes zero [] h = absurd h
split_at-minutes zero (c ∷ []) h = absurd h
split_at-minutes zero (c ∷ d ∷ t) h =
    let (b, e) = split_at-count_digits (d ∷ t) in
    (
      b,
      rw (h.0, bytes-point (d ∷ t), one_add (count_digits (bytes (d ∷ t))))
          (split_at-ascii b'.' _ (d ∷ t) _ b (omega arith) e),
    )
split_at-minutes (suc m) [] h = absurd h
split_at-minutes (suc m) (c ∷ t) h =
    let (b, e) = split_at-minutes m t h.1 in
    (
      b,
      rw (bytes-digit c t h.0, suc_add (suc m) (count_digits (drop (suc m) (bytes t))))
          (split_at-ascii c _ t _ b (digit-ascii c h.0) e),
    )
