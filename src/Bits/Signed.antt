-- ===== src/Bits/Signed.antt =====
-- `pick_i64` reads a field in two's complement.
use nmea_parser.Common.{
  ℕ, zero, suc, ◌+◌, ◌-◌, ◌*◌, ◌/◌, ◌%◌, ◌^◌, ◌≤◌, ◌<◌, ◌≡◌, sym, ◌∙◌, refl, ap, ◌++◌, ltb, ltb→lt,
  ◌==◌, if◌then◌else◌, ◌↔◌, ◌⊎◌, inl, inr, arith, Bool-cases, length, ℤ, pos, negsuc, sub_ℕ,
  pos_part, neg_part, ◌<ℤ◌,
}
use native.Mathlib.Nat.{pow-suc, div-eq_of_lt-le, div-add-mod', div-eq_of_lt, pow-le-pow_right}
use native.Mathlib.Numerals.{sub-one}
use nmea_parser.Bits.{Bits, to_i64, pick_u64, pick_i64}
use nmea_parser.Bits.Pick.{to_bits, pick_u64-to_bits, pick_u64-lt, pick_u64-add}

-- The two's complement of an integer in `len` bits.
abbrev pub complement : ℕ → ℤ → ℕ
complement len (pos n) = n
complement len (negsuc n) = 2 ^ len - suc n

-- `- 2 ^ (len - 1) ≤ x < 2 ^ (len - 1)`.
abbrev pub Fits : ℕ → ℤ → Type 0
Fits len x = (pos_part x < 2 ^ (len - 1)) × (neg_part x ≤ 2 ^ (len - 1))

-- The value of a field that reads as `x`, with its sign bit `s`.
abbrev signed : ℕ → ℕ → ℤ
signed s x = if x / s % 2 == 1 then sub_ℕ (x % s) s else to_i64 x

pick_i64-signed :
    (bv : Bits) (index len : ℕ)
    → pick_i64 bv index len ≡ signed (2 ^ (len - 1)) (pick_u64 bv index len)
unfolding pick_i64 pick_u64
pick_i64-signed bv index len = refl

above_div : (s x : ℕ) → s ≤ x → x < s * 2 → x / s ≡ 1
above_div s x h k = div-eq_of_lt-le {k = 1} s (omega arith) (omega arith)

above_mod : (s x : ℕ) → s ≤ x → x < s * 2 → x % s ≡ x - s
above_mod s x h k = omega (arith, div-add-mod' x s, ap (λ (q : ℕ). q * s) (above_div s x h k))

signed-below : (s x : ℕ) → x < s → s ≤ 2 ^ 62 → signed s x ≡ pos x
signed-below s x h k = ground (arith, div-eq_of_lt h)

signed-above : (s x : ℕ) → s ≤ x → x < s * 2 → signed s x ≡ sub_ℕ x (s * 2)
signed-above s x h k = ground (arith, above_div s x h k, above_mod s x h k)

double : (len : ℕ) → 1 ≤ len → 2 ^ len ≡ 2 ^ (len - 1) * 2
double zero h = absurd (omega arith)
double (suc n) h = rw (sub-one (suc n)) (pow-suc 2 n)

half-le : (len : ℕ) → 1 ≤ len → len ≤ 63 → 2 ^ (len - 1) ≤ 2 ^ 62
half-le len h k = pow-le-pow_right {n = 2} (omega arith) {i = len - 1} {j = 62} (omega arith)

-- An integer is read back from the place where its two's complement was written, in a field of 1
-- to 63 bits that it fits.
pub pick_i64-to_bits :
    (pre post : Bits) (len : ℕ) (x : ℤ)
    → 1 ≤ len
    → len ≤ 63
    → Fits len x
    → pick_i64 (pre ++ (to_bits len (complement len x) ++ post)) (length pre) len ≡ x
pick_i64-to_bits pre post len (pos n) h k f =
    rw
      (
        pick_i64-signed (pre ++ (to_bits len n ++ post)) (length pre) len,
        pick_u64-to_bits pre post len n (omega arith) (omega (arith, double len h)),
      )
      (signed-below (2 ^ (len - 1)) n f.0 (half-le len h k))
pick_i64-to_bits pre post len (negsuc n) h k f =
    let v = 2 ^ len - suc n in
    rw
      (
        pick_i64-signed (pre ++ (to_bits len v ++ post)) (length pre) len,
        pick_u64-to_bits pre post len v (omega arith) (omega (arith, double len h)),
        signed-above (2 ^ (len - 1)) v (omega (arith, double len h)) (omega (arith, double len h)),
      )
      (ground (arith, double len h))

-- A field reads as it is below the sign bit, and less the full range above it.
pick_i64-cases :
    (bv : Bits) (index len : ℕ)
    → 1 ≤ len
    → len ≤ 63
    → let x = pick_u64 bv index len in
      let s = 2 ^ (len - 1) in
      ((x < s) × (pick_i64 bv index len ≡ pos x))
      ⊎ ((s ≤ x) × (x < s * 2) × (pick_i64 bv index len ≡ sub_ℕ x (s * 2)))
pick_i64-cases bv index len h k = elim (Bool-cases (ltb (pick_u64 bv index len) (2 ^ (len - 1)))) [
  | inl small ↦ inl (
    ltb→lt _ _ small,
    rw (pick_i64-signed bv index len) (signed-below _ _ (ltb→lt _ _ small) (half-le len h k)),
  )
  | inr large ↦
      let least : 2 ^ (len - 1) ≤ pick_u64 bv index len = ground arith in
      let most : pick_u64 bv index len < 2 ^ (len - 1) * 2 =
        omega (arith, double len h, pick_u64-lt bv index len (omega arith)) in
      inr (least, most, rw (pick_i64-signed bv index len) (signed-above _ _ least most))
]

-- A signed field of 1 to 63 bits lies in the range of its width.
pub pick_i64-Fits :
    (bv : Bits) (index len : ℕ) → 1 ≤ len → len ≤ 63 → Fits len (pick_i64 bv index len)
pick_i64-Fits bv index len h k = elim (pick_i64-cases bv index len h k) [
  | inl (small, e) ↦ rw e (small, omega arith)
  | inr (least, most, e) ↦ rw e (ground arith, ground arith)
]

sign_digit : (b x r p : ℕ) → b < 2 → x ≡ b * p + r → r < p → (p ≤ x → b ≡ 1) × (b ≡ 1 → p ≤ x)
sign_digit zero x r p h e k = omega arith
sign_digit (suc zero) x r p h e k = omega arith
sign_digit (suc (suc b)) x r p h e k = absurd (omega arith)

-- The first bit of a field is set exactly when the number reaches the sign bit.
first_bit :
    (bv : Bits) (index m : ℕ)
    → suc m ≤ 63
    → (2 ^ (suc m - 1) ≤ pick_u64 bv index (suc m)) ↔ (pick_u64 bv index 1 ≡ 1)
first_bit bv index m h =
    rw (sub-one (suc m), one-add m, pick_u64-add bv index 1 m (omega arith))
      (sign_digit (pick_u64 bv index 1) _ (pick_u64 bv (index + 1) m) (2 ^ m)
        (pick_u64-lt bv index 1 (omega arith)) refl (pick_u64-lt bv (index + 1) m (omega arith)))
  where
    one-add : (m : ℕ) → suc m ≡ 1 + m
    one-add m = omega arith

-- A field of 1 to 63 bits is negative exactly when its first bit is set.
pub pick_i64-sign :
    (bv : Bits) (index len : ℕ)
    → 1 ≤ len
    → len ≤ 63
    → (pick_i64 bv index len <ℤ pos 0) ↔ (pick_u64 bv index 1 ≡ 1)
pick_i64-sign bv index zero h k = absurd (omega arith)
pick_i64-sign bv index (suc m) h k =
    let (to, from) = first_bit bv index m k in
    elim (pick_i64-cases bv index (suc m) h k) [
      | inl (small, e) ↦ rw e (λ n. absurd (omega arith), λ b. absurd (omega (arith, from b)))
      | inr (least, most, e) ↦ rw e (λ n. to least, λ b. ground arith)
    ]

-- Fields that read alike as integers read alike as numbers.
pub pick_i64-injective :
    (bv bv' : Bits) (index len : ℕ)
    → 1 ≤ len
    → len ≤ 63
    → pick_i64 bv index len ≡ pick_i64 bv' index len
    → pick_u64 bv index len ≡ pick_u64 bv' index len
pick_i64-injective bv bv' index len h k e = elim (pick_i64-cases bv index len h k) [
  | inl (small, p) ↦ elim (pick_i64-cases bv' index len h k) [
    | inl (small', p') ↦ ground (arith, sym p ∙ e ∙ p')
    | inr (least', most', p') ↦ ground (arith, sym p ∙ e ∙ p')
  ]
  | inr (least, most, p) ↦ elim (pick_i64-cases bv' index len h k) [
    | inl (small', p') ↦ ground (arith, sym p ∙ e ∙ p')
    | inr (least', most', p') ↦ ground (arith, sym p ∙ e ∙ p')
  ]
]
