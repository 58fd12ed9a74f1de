-- ===== src/Parser/Frame/Checksum.antt =====
-- The checksum: what a sealed sentence gives, and that a changed character is noticed.
use Prim.Native.Nat.{bit_xor}
use nmea_parser.Common.{
  ℕ, zero, suc, ◌%◌, ◌≤◌, ◌<◌, ◌≡◌, refl, sym, ap, ◌∙◌, Bool, true, ◌&&◌, [], ◌∷◌, ◌++◌, ltb, ◌==◌,
  arith,
}
use nmea_parser.Text.{Text}
use nmea_parser.Parser.Frame.{xor_chars, skip_one, checksum, hex_digit, show_hex}

-- Facts about bytes, by evaluation at every pair.
row_below : ℕ → (ℕ → Bool) → Bool
row_below zero p = true
row_below (suc n) p = p n && row_below n p

row_below_sound : (n : ℕ) (p : ℕ → Bool) (x : ℕ) → row_below n p ≡ true → x < n → p x ≡ true
unfolding row_below
row_below_sound zero p x h lt = absurd (omega arith)
row_below_sound (suc n) p x h lt = ground (arith, row_below_sound n p x)

abbrev xor_facts : ℕ → ℕ → Bool
xor_facts a b = let x = bit_xor a b in bit_xor x b == a && ltb x 256 && x == bit_xor b a

abbrev xor_row : ℕ → Bool
xor_row a = row_below 256 (xor_facts a)

xor_table : row_below 256 xor_row ≡ true
unfolding row_below
xor_table = refl

xor_pair : (a b : ℕ) → a < 256 → b < 256 → xor_facts a b ≡ true
xor_pair a b ha hb =
    row_below_sound 256 (xor_facts a) b (row_below_sound 256 xor_row a xor_table ha) hb

bit_xor_cancel : (a b : ℕ) → a < 256 → b < 256 → bit_xor (bit_xor a b) b ≡ a
bit_xor_cancel a b ha hb = ground (arith, xor_pair a b ha hb)

bit_xor-lt : (a b : ℕ) → a < 256 → b < 256 → bit_xor a b < 256
bit_xor-lt a b ha hb = ground (arith, xor_pair a b ha hb)

bit_xor-injective :
    (a a' b : ℕ) → a < 256 → a' < 256 → b < 256 → bit_xor a b ≡ bit_xor a' b → a ≡ a'
bit_xor-injective a a' b ha ha' hb e =
    sym (bit_xor_cancel a b ha hb) ∙ ap (λ (x : ℕ). bit_xor x b) e ∙ bit_xor_cancel a' b ha' hb

bit_xor_comm : (a b : ℕ) → a < 256 → b < 256 → bit_xor a b ≡ bit_xor b a
bit_xor_comm a b ha hb = ground (arith, xor_pair a b ha hb)

xor_chars-lt : (k : ℕ) (t : Text) → k < 256 → xor_chars k t < 256
unfolding xor_chars
xor_chars-lt k [] h = h
xor_chars-lt k (c ∷ t) h =
    xor_chars-lt (bit_xor k (c % 256)) t (bit_xor-lt k (c % 256) h (omega arith))

xor_chars-injective :
    (k k' : ℕ) (t : Text) → k < 256 → k' < 256 → xor_chars k t ≡ xor_chars k' t → k ≡ k'
unfolding xor_chars
xor_chars-injective k k' [] h h' e = e
xor_chars-injective k k' (c ∷ t) h h' e = bit_xor-injective k k' (c % 256) h h' (omega arith) (
    xor_chars-injective (bit_xor k (c % 256)) (bit_xor k' (c % 256)) t
      (bit_xor-lt k (c % 256) h (omega arith)) (bit_xor-lt k' (c % 256) h' (omega arith)) e)

xor_chars-append : (k : ℕ) (a b : Text) → xor_chars k (a ++ b) ≡ xor_chars (xor_chars k a) b
unfolding xor_chars
xor_chars-append k [] b = refl
xor_chars-append k (c ∷ a) b = xor_chars-append (bit_xor k (c % 256)) a b

pub checksum-lt : (t : Text) → checksum t < 256
unfolding checksum
checksum-lt t = xor_chars-lt 0 (skip_one t) (omega arith)

checksum_at :
    (m : ℕ) (a b : Text) (c : ℕ)
    → checksum (m ∷ (a ++ (c ∷ b))) ≡ xor_chars (bit_xor (xor_chars 0 a) (c % 256)) b
unfolding checksum
checksum_at m a b c = xor_chars-append 0 a (c ∷ b)

-- Two sentences that differ in the low byte of one character have different checksums.
pub checksum-changed :
    (m : ℕ) (a b : Text) (c c' : ℕ)
    → checksum (m ∷ (a ++ (c ∷ b))) ≡ checksum (m ∷ (a ++ (c' ∷ b)))
    → c % 256 ≡ c' % 256
checksum-changed m a b c c' e =
    let k : ℕ = xor_chars 0 a in
    let hk : k < 256 = xor_chars-lt 0 a (omega arith) in
    bit_xor-injective (c % 256) (c' % 256) k (omega arith) (omega arith) hk (
      bit_xor_comm (c % 256) k (omega arith) hk
      ∙ xor_chars-injective (bit_xor k (c % 256)) (bit_xor k (c' % 256)) b
          (bit_xor-lt k (c % 256) hk (omega arith)) (bit_xor-lt k (c' % 256) hk (omega arith))
          (sym (checksum_at m a b c) ∙ e ∙ checksum_at m a b c')
      ∙ bit_xor_comm k (c' % 256) hk (omega arith))

pub show_hex-injective : (x y : ℕ) → x < 256 → y < 256 → show_hex x ≡ show_hex y → x ≡ y
show_hex-injective x y hx hy e = ground arith

pub hex_digit-ascii : (d : ℕ) → d < 16 → (48 ≤ hex_digit d) × (hex_digit d < 128)
hex_digit-ascii d h = ground arith
