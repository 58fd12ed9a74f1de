-- ===== src/Text/Decimal.antt =====
-- Decimal numbers: `format!("{}", n)` against `parse`.
use nmea_parser.Common.{
  ℕ, zero, suc, ◌+◌, ◌-◌, ◌*◌, ◌/◌, ◌%◌, ◌^◌, ◌≤◌, ◌<◌, ◌≡◌, refl, ap, ◌∙◌, true, [], ◌∷◌, inl, inr,
  some, ◌≢◌, ltb, arith, Bool-cases,
}
use native.Mathlib.Nat.{pow-suc}
use nmea_parser.Text.{
  Text, digits_value, unsigned_digits, parse_unsigned, show_digits, show_u64, Lacks,
}

digits_value-digit :
    (n : ℕ) (t : Text) (a : ℕ)
    → digits_value ((48 + n % 10) ∷ t) a ≡ digits_value t (a * 10 + n % 10)
unfolding digits_value
digits_value-digit n t a = ground (arith, ap (digits_value t) (index n a))
  where
    index : (n a : ℕ) → a * 10 + (48 + n % 10 - 48) ≡ a * 10 + n % 10
    index n a = omega arith

tenth : (n fuel : ℕ) → n < 10 ^ suc (suc fuel) → n / 10 < 10 ^ suc fuel
tenth n fuel h = omega (arith, pow-suc 10 (suc fuel))

show_digits-small :
    (fuel n : ℕ) (t : Text) → n < 10 → show_digits (suc fuel) n t ≡ (48 + n % 10) ∷ t
unfolding show_digits
show_digits-small fuel n t h = ground arith

show_digits-large :
    (fuel n : ℕ) (t : Text)
    → 10 ≤ n
    → show_digits (suc fuel) n t ≡ show_digits fuel (n / 10) ((48 + n % 10) ∷ t)
unfolding show_digits
show_digits-large fuel n t h = ground arith

-- Reading a printed number from any text behind it.
digits_value-show_digits :
    (fuel n : ℕ) (t : Text)
    → n < 10 ^ suc fuel
    → digits_value (show_digits (suc fuel) n t) 0 ≡ digits_value t n
digits_value-show_digits zero n t h = ground (
  arith,
  show_digits-small 0 n t,
  digits_value-digit n t 0,
  ap (digits_value t) (last n (omega arith)),
)
  where
    last : (n : ℕ) → n < 10 → 0 * 10 + n % 10 ≡ n
    last n h = omega arith
digits_value-show_digits (suc fuel) n t h = elim (Bool-cases (ltb n 10)) [
  | inl small ↦
      rw (show_digits-small (suc fuel) n t (ground arith), digits_value-digit n t 0)
        (ap (digits_value t) (ground arith))
  | inr large ↦
      rw
        (
          show_digits-large (suc fuel) n t (ground arith),
          digits_value-show_digits fuel (n / 10) ((48 + n % 10) ∷ t) (tenth n fuel h),
          digits_value-digit n t (n / 10),
        )
        (ap (digits_value t) (omega arith))
]

show_digits-ne : (fuel n c : ℕ) (t : Text) → show_digits fuel n (c ∷ t) ≢ []
unfolding show_digits
show_digits-ne zero n c t e = cc
show_digits-ne (suc fuel) n c t e =
    ground (arith, show_digits-ne fuel (n / 10) (48 + n % 10) (c ∷ t))

parse_unsigned-digits_value :
    (m v : ℕ) (t : Text) → t ≢ [] → digits_value t 0 ≡ some v → v < m → parse_unsigned m t ≡ some v
unfolding parse_unsigned unsigned_digits
parse_unsigned-digits_value m v [] ne e h = absurd (ne refl)
parse_unsigned-digits_value m v (c ∷ t) ne e h =
    unfold digits_value in ground (arith, ltb_true v m h)
  where
    ltb_true : (v m : ℕ) → v < m → ltb v m ≡ true
    ltb_true v m h = ground arith

-- A number below 10 ^ 20 that is printed is read back by `parse`, at every width that holds it.
pub parse_unsigned-show_u64 :
    (m n : ℕ) → n < 10 ^ 20 → n < m → parse_unsigned m (show_u64 n) ≡ some n
unfolding show_u64
parse_unsigned-show_u64 m n h k =
    parse_unsigned-digits_value m n (show_digits 20 n []) (show_u64-ne n)
      (digits_value-show_digits 19 n [] h ∙ unfold digits_value in refl) k
  where
    show_u64-ne : (n : ℕ) → show_digits 20 n [] ≢ []
    show_u64-ne n e =
        unfold show_digits in ground (arith, show_digits-ne 19 (n / 10) (48 + n % 10) [])

pub show_u64-injective : (a b : ℕ) → a < 10 ^ 20 → b < 10 ^ 20 → show_u64 a ≡ show_u64 b → a ≡ b
show_u64-injective a b ha hb e = cc (
  parse_unsigned-show_u64 (10 ^ 20) a ha ha,
  parse_unsigned-show_u64 (10 ^ 20) b hb hb,
  ap (parse_unsigned (10 ^ 20)) e,
)

show_digits-Lacks : (fuel n d : ℕ) (t : Text) → d < 48 → Lacks d t → Lacks d (show_digits fuel n t)
unfolding show_digits
show_digits-Lacks zero n d t h k = k
show_digits-Lacks (suc fuel) n d t h k = elim (Bool-cases (ltb n 10)) [
  | inl small ↦ rw small (ground arith, k)
  | inr large ↦ rw large (show_digits-Lacks fuel (n / 10) d ((48 + n % 10) ∷ t) h (ground arith, k))
]

-- Digits only: no separator stands in a printed number.
pub show_u64-Lacks : (n d : ℕ) → d < 48 → Lacks d (show_u64 n)
unfolding show_u64
show_u64-Lacks n d h = show_digits-Lacks 20 n d [] h tt

-- A number that is read is below its bound.
pub parse_unsigned-lt : (m : ℕ) (t : Text) (n : ℕ) → parse_unsigned m t ≡ some n → n < m
unfolding parse_unsigned digits_value
parse_unsigned-lt m [] n e = cc
parse_unsigned-lt m (c ∷ []) n e = ground arith
parse_unsigned-lt m (c ∷ d ∷ t) n e = ground arith
