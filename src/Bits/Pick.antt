-- ===== src/Bits/Pick.antt =====
-- `pick_u64` reads a big-endian field.
use nmea_parser.Common.{
  ℕ, zero, suc, ◌+◌, ◌*◌, ◌/◌, ◌%◌, ◌^◌, ◌≤◌, ◌<◌, ◌≡◌, refl, sym, ap, ◌∙◌, Bool, true, false, [],
  ◌∷◌, ◌++◌, Option, none, some, ◌==◌, arith, length, get_elem?, drop,
}
use native.Mathlib.Nat.{
  pow-suc, pow-le-pow_right, mul-add-mod_self_right, mod-eq_of_lt, div-add-mod', mod-lt,
}
use Prim.Native.Nat.add
use nmea_parser.Bits.{Bits, bit, shift_in, pick_loop, pick_u64}

-- The `n` low bits of a number, highest first.
unfoldable pub to_bits : ℕ → ℕ → Bits
to_bits zero v = []
to_bits (suc n) v = (v / 2 ^ n % 2 == 1) ∷ to_bits n v

-- The same loop, walking down the bits that are left.
walk : Bits → ℕ → ℕ → ℕ
walk bs zero res = res
walk [] (suc n) res = walk [] n (shift_in res none)
walk (b ∷ bs) (suc n) res = walk bs n (shift_in res (some b))

walk_step :
    (bv : Bits) (index n res : ℕ)
    → walk (drop index bv) (suc n) res
      ≡ walk (drop (suc index) bv) n (shift_in res (get_elem? bv index))
unfolding walk
walk_step [] zero n res = refl
walk_step [] (suc index) n res = refl
walk_step (b ∷ bs) zero n res = refl
walk_step (b ∷ bs) (suc index) n res = walk_step bs index n res

walk-drop : (bv : Bits) (index n res : ℕ) → pick_loop bv index n res ≡ walk (drop index bv) n res
unfolding pick_loop
walk-drop bv index zero res = unfold walk in refl
walk-drop bv index (suc n) res =
    walk-drop bv (suc index) n (shift_in res (get_elem? bv index)) ∙ sym (walk_step bv index n res)

-- The number that the next `n` bits spell, highest bit first; bits past the end count as 0.
unfoldable pub window : Bits → ℕ → ℕ
window bs zero = 0
window [] (suc n) = window [] n
window (b ∷ bs) (suc n) = bit b * 2 ^ n + window bs n

pub pow-pos : (n : ℕ) → 1 ≤ 2 ^ n
pow-pos zero = omega arith
pow-pos (suc n) = omega (arith, pow-suc 2 n, pow-pos n)

pub window-lt : (bs : Bits) (n : ℕ) → window bs n < 2 ^ n
unfolding window
window-lt bs zero = omega arith
window-lt [] (suc n) = omega (arith, window-lt [] n, pow-suc 2 n)
window-lt (true ∷ bs) (suc n) = omega (arith, window-lt bs n, pow-suc 2 n)
window-lt (false ∷ bs) (suc n) = omega (arith, window-lt bs n, pow-suc 2 n)

mul-pos-le : (a p : ℕ) → 1 ≤ p → a ≤ a * p
mul-pos-le a p h = grind arith

-- A further bit does not wrap while there is room for it and for the `n` bits behind it.
room : (res n : ℕ) → (res + 1) * 2 ^ suc n ≤ 2 ^ 64 → res * 2 + 1 < 2 ^ 64
room res n h = omega (
  arith,
  pow-suc 2 n,
  ap (λ (p : ℕ). (res + 1) * p) (pow-suc 2 n),
  mul-pos-le (res + 1) (2 ^ n) (pow-pos n),
)

abbrev tail_bit : Option Bool → ℕ
tail_bit none = 0
tail_bit (some b) = bit b

shift_in_lem :
    (res n : ℕ) (o : Option Bool)
    → (res + 1) * 2 ^ suc n ≤ 2 ^ 64
    → shift_in res o ≡ res * 2 + tail_bit o
unfolding shift_in
shift_in_lem res n none h = omega (arith, room res n h)
shift_in_lem res n (some b) h = omega (arith, room res n h)

room_step :
    (res n : ℕ) (o : Option Bool)
    → (res + 1) * 2 ^ suc n ≤ 2 ^ 64
    → (res * 2 + tail_bit o + 1) * 2 ^ n ≤ 2 ^ 64
room_step res n none h = omega (arith, ap (λ (p : ℕ). (res + 1) * p) (pow-suc 2 n))
room_step res n (some true) h = omega (arith, ap (λ (p : ℕ). (res + 1) * p) (pow-suc 2 n))
room_step res n (some false) h = omega (arith, ap (λ (p : ℕ). (res + 1) * p) (pow-suc 2 n))

walk-window :
    (bs : Bits) (n res : ℕ) → (res + 1) * 2 ^ n ≤ 2 ^ 64 → walk bs n res ≡ res * 2 ^ n + window bs n
unfolding walk window
walk-window bs zero res h = omega arith
walk-window [] (suc n) res h = rw (shift_in_lem res n none h) (
    omega (
      arith,
      walk-window [] n (res * 2 + tail_bit none) (room_step res n none h),
      ap (λ (p : ℕ). res * p) (pow-suc 2 n),
    ))
walk-window (b ∷ bs) (suc n) res h = rw (shift_in_lem res n (some b) h) (
    omega (
      arith,
      walk-window bs n (res * 2 + tail_bit (some b)) (room_step res n (some b) h),
      ap (λ (p : ℕ). res * p) (pow-suc 2 n),
    ))

-- `pick_u64` is the big-endian number of the next `len` bits, for fields of up to 64 bits.
pub pick_u64-window :
    (bv : Bits) (index len : ℕ) → len ≤ 64 → pick_u64 bv index len ≡ window (drop index bv) len
unfolding pick_u64
pick_u64-window bv index len h =
    walk-drop bv index len 0
    ∙ walk-window (drop index bv) len 0 (omega (arith, pow-le-pow_right {n = 2} (omega arith) h))
    ∙ omega arith

pub pick_u64-lt : (bv : Bits) (index len : ℕ) → len ≤ 64 → pick_u64 bv index len < 2 ^ len
pick_u64-lt bv index len h = rw (pick_u64-window bv index len h) (window-lt (drop index bv) len)

at_most_one : (x p : ℕ) → x < 2 → x * p ≤ p
at_most_one zero p h = omega arith
at_most_one (suc zero) p h = omega arith
at_most_one (suc (suc x)) p h = absurd (omega arith)

-- The highest of the bits below `p * 2`, and those below `p`.
split_mod : (v p : ℕ) → 1 ≤ p → v % (p * 2) ≡ v / p % 2 * p + v % p
split_mod v p h =
    ap (λ (x : ℕ). x % (p * 2)) digits
    ∙ mul-add-mod_self_right (v / p / 2) (p * 2) (v / p % 2 * p + v % p)
    ∙ mod-eq_of_lt fits
  where
    digits : v ≡ v / p / 2 * (p * 2) + (v / p % 2 * p + v % p)
    digits = omega (arith, div-add-mod' v p, ap (λ (q : ℕ). q * p) (div-add-mod' (v / p) 2))

    fits : v / p % 2 * p + v % p < p * 2
    fits = omega (arith, at_most_one (v / p % 2) p (omega arith), mod-lt v h)

top_bit : (x p : ℕ) → bit (x % 2 == 1) * p ≡ x % 2 * p
top_bit x p = ap (λ (b : ℕ). b * p) (ground arith)

pub window-to_bits : (n v : ℕ) (post : Bits) → window (to_bits n v ++ post) n ≡ v % 2 ^ n
unfolding window to_bits
window-to_bits zero v post = omega arith
window-to_bits (suc n) v post = omega (
  arith,
  split_mod v (2 ^ n) (pow-pos n),
  top_bit (v / 2 ^ n) (2 ^ n),
  window-to_bits n v post,
  ap (λ (p : ℕ). v % p) (pow-suc 2 n),
)

pub length-to_bits : (n v : ℕ) → length (to_bits n v) ≡ n
unfolding to_bits
length-to_bits zero v = refl
length-to_bits (suc n) v = ap suc (length-to_bits n v)

pub drop-append : (pre post : Bits) → drop (length pre) (pre ++ post) ≡ post
drop-append [] post = refl
drop-append (b ∷ pre) post = drop-append pre post

-- A field of at most 64 bits is read back from the place where it was written, whatever stands
-- around it.
pub pick_u64-to_bits :
    (pre post : Bits) (len v : ℕ)
    → len ≤ 64
    → v < 2 ^ len
    → pick_u64 (pre ++ (to_bits len v ++ post)) (length pre) len ≡ v
pick_u64-to_bits pre post len v h k =
    pick_u64-window (pre ++ (to_bits len v ++ post)) (length pre) len h
    ∙ ap (λ (bs : Bits). window bs len) (drop-append pre (to_bits len v ++ post))
    ∙ window-to_bits len v post
    ∙ mod-eq_of_lt k

window-nil : (n : ℕ) → window [] n ≡ 0
unfolding window
window-nil zero = refl
window-nil (suc n) = window-nil n

drop-nil : (n : ℕ) → drop {A = Bool} n [] ≡ []
drop-nil zero = refl
drop-nil (suc n) = refl

pow-add : (m n : ℕ) → 2 ^ (m + n) ≡ 2 ^ m * 2 ^ n
pow-add zero n = rw (add.zero n) (omega arith)
pow-add (suc m) n =
    rw (add.suc m n)
      (omega (arith, pow-add m n, pow-suc 2 (m + n), ap (λ (p : ℕ). p * 2 ^ n) (pow-suc 2 m)))

window-add : (bs : Bits) (m n : ℕ) → window bs (m + n) ≡ window bs m * 2 ^ n + window (drop m bs) n
unfolding window
window-add bs zero n = rw (add.zero n) (omega arith)
window-add [] (suc m) n = omega (
  arith,
  window-nil (suc m + n),
  ap (λ (x : ℕ). x * 2 ^ n) (window-nil (suc m)),
  window-nil n,
  ap (λ (bs : Bits). window bs n) (drop-nil (suc m)),
)
window-add (b ∷ bs) (suc m) n =
    rw (add.suc m n) (omega (arith, window-add bs m n, ap (λ (p : ℕ). bit b * p) (pow-add m n)))

pub drop-drop : (m n : ℕ) (bs : Bits) → drop n (drop m bs) ≡ drop (m + n) bs
drop-drop zero n bs = rw (add.zero n)
drop-drop (suc m) n [] = rw (drop-nil n, drop-nil (suc m + n))
drop-drop (suc m) n (b ∷ bs) = rw (add.suc m n) (drop-drop m n bs)

-- Two adjacent fields of at most 64 bits together, read as one, are the first field, shifted, and
-- the second.
pub pick_u64-add :
    (bv : Bits) (index m n : ℕ)
    → m + n ≤ 64
    → pick_u64 bv index (m + n) ≡ pick_u64 bv index m * 2 ^ n + pick_u64 bv (index + m) n
pick_u64-add bv index m n h = rw (
  pick_u64-window bv index (m + n) h,
  pick_u64-window bv index m (omega arith),
  pick_u64-window bv (index + m) n (omega arith),
  window-add (drop index bv) m n,
  drop-drop index m bv,
)
