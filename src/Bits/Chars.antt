-- ===== src/Bits/Chars.antt =====
-- Six-bit text: `pick_string` against its encoder.
use nmea_parser.Common.{
  ℕ, zero, suc, ◌+◌, ◌%◌, ◌^◌, ◌≤◌, ◌<◌, ◌≡◌, refl, ap, ◌∙◌, [], ◌∷◌, ◌++◌, ltb, ◌==◌,
  if◌then◌else◌, ◌⊎◌, inl, inr, arith, Bool-cases, length, length-append, ok, ◌≢◌, ◌>>=◌, some,
  none, append_assoc,
}
use nmea_parser.Text.{Text}
use nmea_parser.Bits.{
  Bits, pick_u64, pick_char, push_char, pick_chars, trim_end, trim_step, is_whitespace, pick_string,
}
use nmea_parser.Bits.Pick.{to_bits, pick_u64-to_bits, pick_u64-lt, length-to_bits}

-- The characters that six bits can spell; `@` ends a text.
abbrev pub IsAisChar : ℕ → Type 0
IsAisChar c = (32 ≤ c) × (c < 96) × (c ≢ 64)

abbrev pub IsAisText : Text → Type 0
IsAisText [] = Unit
IsAisText (c ∷ t) = IsAisChar c × IsAisText t

-- The bits of a text in a field of `n` characters, filled up with `@`.
abbrev pub encode_text : ℕ → Text → Bits
encode_text zero t = []
encode_text (suc n) [] = to_bits 6 0 ++ encode_text n []
encode_text (suc n) (c ∷ t) = to_bits 6 (c % 64) ++ encode_text n t

pick_chars-suc :
    (bv : Bits) (index n : ℕ)
    → pick_chars bv index (suc n) ≡ (
        pick_char (pick_u64 bv index 6 % 2 ^ 32) >>= λ c. push_char c (pick_chars bv (index + 6) n))
unfolding pick_chars
pick_chars-suc bv index n = refl

-- One round of the loop at a field that holds `v`.
pick_chars_step :
    (pre post : Bits) (n v : ℕ)
    → v < 64
    → pick_chars (pre ++ (to_bits 6 v ++ post)) (length pre) (suc n) ≡ (
        pick_char v >>= λ c.
        push_char c (pick_chars ((pre ++ to_bits 6 v) ++ post) (length (pre ++ to_bits 6 v)) n))
pick_chars_step pre post n v h = rw (
  length-append pre (to_bits 6 v),
  length-to_bits 6 v,
  append_assoc pre (to_bits 6 v) post,
  pick_chars-suc (pre ++ (to_bits 6 v ++ post)) (length pre) n,
  pick_u64-to_bits pre post 6 v (omega arith) h,
  narrow v h,
)
  where
    narrow : (v : ℕ) → v < 64 → v % 2 ^ 32 ≡ v
    narrow v h = omega arith

pick_char-ais : (c : ℕ) → IsAisChar c → pick_char (c % 64) ≡ ok (some c)
unfolding pick_char
pick_char-ais c h = ground arith

pick_chars-encode :
    (n : ℕ) (t : Text) (pre post : Bits)
    → length t ≤ n
    → IsAisText t
    → pick_chars (pre ++ (encode_text n t ++ post)) (length pre) n ≡ ok t
unfolding push_char
pick_chars-encode zero [] pre post h a = unfold pick_chars in refl
pick_chars-encode zero (c ∷ t) pre post h a = absurd (omega arith)
pick_chars-encode (suc n) [] pre post h a =
    rw (append_assoc (to_bits 6 0) (encode_text n []) post)
      (pick_chars_step pre (encode_text n [] ++ post) n 0 (omega arith) ∙ unfold pick_char in refl)
pick_chars-encode (suc n) (c ∷ t) pre post h a = rw (
  append_assoc (to_bits 6 (c % 64)) (encode_text n t) post,
  pick_chars_step pre (encode_text n t ++ post) n (c % 64) (omega arith),
  pick_char-ais c a.0,
  pick_chars-encode n t (pre ++ to_bits 6 (c % 64)) post (omega arith) a.1,
)

-- A text of AIS characters with no blank at its end is read back from a field that it fits.
pub pick_string-encode_text :
    (n : ℕ) (t : Text) (pre post : Bits)
    → length t ≤ n
    → IsAisText t
    → trim_end t ≡ t
    → pick_string (pre ++ (encode_text n t ++ post)) (length pre) n ≡ ok t
unfolding pick_string
pick_string-encode_text n t pre post h a e = rw (pick_chars-encode n t pre post h a) (ap ok e)

-- One round of the loop on any field: it ends the text or adds an AIS character.
pick_char-total :
    (v : ℕ)
    → v < 64
    → (pick_char v ≡ ok none) ⊎ ((c : ℕ) × (pick_char v ≡ ok (some c)) × IsAisChar c)
unfolding pick_char
pick_char-total v h = elim (Bool-cases (v == 0)) [
  | inl e ↦ inl (rw e)
  | inr e ↦ inr (if ltb v 32 then 64 + v else v, ground arith, ground arith)
]

-- Reading a string never reaches the unreachable branch, and gives AIS characters only.
pick_chars-IsAisText :
    (bv : Bits) (index n : ℕ)
    → (t : Text) × (pick_chars bv index n ≡ ok t) × IsAisText t × (length t ≤ n)
unfolding push_char
pick_chars-IsAisText bv index zero = ([], unfold pick_chars in refl, tt, omega arith)
pick_chars-IsAisText bv index (suc n) =
    let v = pick_u64 bv index 6 % 2 ^ 32 in
    let small : v < 64 = omega (arith, pick_u64-lt bv index 6) in
    let (t, e, a, k) = pick_chars-IsAisText bv (index + 6) n in
    elim (pick_char-total v small) [
      | inl p ↦ ([], rw (pick_chars-suc bv index n, p), tt, omega arith)
      | inr (c, p, q) ↦ (c ∷ t, rw (pick_chars-suc bv index n, p, e), (q, a), omega arith)
    ]

trim_step-IsAisText : (c : ℕ) (t : Text) → IsAisChar c → IsAisText t → IsAisText (trim_step c t)
unfolding trim_step
trim_step-IsAisText c [] h a = elim (Bool-cases (is_whitespace c)) [
  | inl w ↦ rw w tt
  | inr w ↦ rw w (h, tt)
]
trim_step-IsAisText c (x ∷ r) h a = (h, a)

length-trim_step : (c : ℕ) (t : Text) → length (trim_step c t) ≤ suc (length t)
unfolding trim_step
length-trim_step c [] = elim (Bool-cases (is_whitespace c)) [
  | inl w ↦ rw w (omega arith)
  | inr w ↦ rw w (omega arith)
]
length-trim_step c (x ∷ r) = omega arith

trim_end-IsAisText : (t : Text) → IsAisText t → IsAisText (trim_end t)
unfolding trim_end
trim_end-IsAisText [] a = tt
trim_end-IsAisText (c ∷ t) a = trim_step-IsAisText c (trim_end t) a.0 (trim_end-IsAisText t a.1)

length-trim_end : (t : Text) → length (trim_end t) ≤ length t
unfolding trim_end
length-trim_end [] = omega arith
length-trim_end (c ∷ t) = omega (arith, length-trim_step c (trim_end t), length-trim_end t)

-- Any field gives a text (`unreachable!` is never reached) of AIS characters only, and of no more
-- than were asked for.
pub pick_string-IsAisText :
    (bv : Bits) (index n : ℕ)
    → (t : Text) × (pick_string bv index n ≡ ok t) × IsAisText t × (length t ≤ n)
unfolding pick_string
pick_string-IsAisText bv index n =
    let (t, e, a, k) = pick_chars-IsAisText bv index n in
    (trim_end t, rw e, trim_end-IsAisText t a, omega (arith, length-trim_end t))
