-- ===== src/Parser/Frame/Sealed.antt =====
-- Whole sentences: characters in front of the mark, the checksum, and what may follow it.
use nmea_parser.Common.{
  ℕ, ◌/◌, ◌%◌, ◌≤◌, ◌<◌, ◌≡◌, sym, ap, ◌∙◌, ◌≢◌, inl, inr, true, false, ◌||◌, some, [], ◌∷◌, ◌++◌,
  ◌==◌, Bool-cases, arith, Outcome, ok, err, ◌>>=◌, ◌>>◌, corrupted_sentence, invalid_sentence,
  ok_or, guard,
}
use nmea_parser.Text.{Text, Lacks, eq_text, byte_len, get_range}
use nmea_parser.Text.Laws.{eq_text_iff, eq_text_refl, rsplit-append, rsplit-none}
use nmea_parser.Text.Slices.{split_at-zero, get_range-front, split_at-ascii}
use nmea_parser.Parser.Frame.{
  shed_prefix, split_checksum, checksum, hex_digit, show_hex, verify, before_comma, all_type_chars,
  frame,
}
use nmea_parser.Parser.Frame.Checksum.{
  checksum-lt, checksum-changed, show_hex-injective, hex_digit-ascii,
}

-- The sentence starts with `$` or `!`.
abbrev pub Marked : Text → Type 0
Marked [] = ⊥
Marked (c ∷ t) = (c == b'$' || c == b'!') ≡ true

shed_prefix-Marked :
    (pre s : Text) → Lacks b'$' pre → Lacks b'!' pre → Marked s → shed_prefix (pre ++ s) ≡ some s
unfolding shed_prefix
shed_prefix-Marked [] [] h h' m = absurd m
shed_prefix-Marked [] (c ∷ s) h h' m = rw m
shed_prefix-Marked (c ∷ pre) s h h' m = rw (h.0, h'.0) (shed_prefix-Marked pre s h.1 h'.1 m)

pub two_ascii :
    (a b : ℕ) (t : Text) → a < 128 → b < 128 → get_range (a ∷ b ∷ t) 0 2 ≡ some (a ∷ b ∷ [])
two_ascii a b t ha hb =
    get_range-front (a ∷ b ∷ t) 2 (a ∷ b ∷ []) t
      (split_at-ascii a 1 (b ∷ t) (b ∷ []) t ha (split_at-ascii b 0 t [] t hb (split_at-zero t)))

byte_len_two : (a b : ℕ) (t : Text) → 2 ≤ byte_len (a ∷ b ∷ t)
unfolding byte_len
byte_len_two a b t = ground arith

-- A checksum of two ASCII characters is taken off, and what follows it is dropped.
split_checksum-two :
    (s : Text) (a b : ℕ) (tail : Text)
    → a < 128
    → b < 128
    → Lacks b'*' (a ∷ b ∷ tail)
    → split_checksum (s ++ (b'*' ∷ a ∷ b ∷ tail)) ≡ ok (s, a ∷ b ∷ [])
unfolding split_checksum
split_checksum-two s a b tail ha hb h =
    rw (rsplit-append b'*' s (a ∷ b ∷ tail) h, split_checksum)
      (ground (arith, byte_len_two a b tail, two_ascii a b tail ha hb))

-- What `frame` does with a sentence once its checksum has passed.
abbrev pub typed : Text → Outcome (Text × Text)
typed sentence = ok_or (before_comma sentence) invalid_sentence >>= λ sentence_type.
    guard (all_type_chars sentence_type) invalid_sentence >> ok (sentence, sentence_type)

module _ (pre s : Text) (no_dollar : Lacks b'$' pre) (no_bang : Lacks b'!' pre)
    (marked : Marked s) where
  frame-split :
      (rest body given : Text)
      → split_checksum (s ++ rest) ≡ ok (body, given)
      → frame (pre ++ (s ++ rest)) ≡ (verify body given >>= typed)
  unfolding frame
  frame-split rest body given e =
      rw (shed_prefix-Marked pre (s ++ rest) no_dollar no_bang (marked_append s rest marked), e)
    where
      marked_append : (s rest : Text) → Marked s → Marked (s ++ rest)
      marked_append [] rest m = absurd m
      marked_append (c ∷ s) rest m = m

  frame-verify :
      (a b : ℕ) (tail : Text)
      → a < 128
      → b < 128
      → Lacks b'*' (a ∷ b ∷ tail)
      → frame (pre ++ (s ++ (b'*' ∷ a ∷ b ∷ tail))) ≡ (verify s (a ∷ b ∷ []) >>= typed)
  frame-verify a b tail ha hb h =
      frame-split (b'*' ∷ a ∷ b ∷ tail) s (a ∷ b ∷ []) (split_checksum-two s a b tail ha hb h)

verify-same : (s : Text) → verify s (show_hex (checksum s)) ≡ ok s
unfolding verify
verify-same s = rw (eq_text_refl (show_hex (checksum s)))

verify-ne :
    (s : Text) (a b : ℕ)
    → a ∷ b ∷ [] ≢ show_hex (checksum s)
    → verify s (a ∷ b ∷ []) ≡ err corrupted_sentence
unfolding verify
verify-ne s a b ne = elim (Bool-cases (eq_text (show_hex (checksum s)) (a ∷ b ∷ []))) [
  | inl same ↦ absurd (ne (sym ((eq_text_iff (show_hex (checksum s)) (a ∷ b ∷ [])).0 same)))
  | inr other ↦ rw other
]

split_checksum-plain : (s : Text) → Lacks b'*' s → split_checksum s ≡ ok (s, [])
unfolding split_checksum
split_checksum-plain s h = rw (rsplit-none b'*' s h, split_checksum)

pub frame-plain : (s : Text) → Marked s → Lacks b'*' s → frame s ≡ typed s
unfolding frame
frame-plain s marked plain = rw (shed_prefix-Marked [] s tt tt marked, split_checksum-plain s plain)

hex_ascii :
    (n : ℕ)
    → n < 256
    → (48 ≤ hex_digit (n / 16))
      × (hex_digit (n / 16) < 128)
      × (48 ≤ hex_digit (n % 16))
      × (hex_digit (n % 16) < 128)
hex_ascii n h =
    let (p, q) = hex_digit-ascii (n / 16) (omega arith) in
    let (r, t) = hex_digit-ascii (n % 16) (omega arith) in (p, q, r, t)

not_star : (d : ℕ) → 48 ≤ d → (d == b'*') ≡ false
not_star d h = ground arith

module _ (pre s tail : Text) (no_dollar : Lacks b'$' pre) (no_bang : Lacks b'!' pre)
    (marked : Marked s) (no_star : Lacks b'*' tail) where
  hex-Lacks : (n : ℕ) → n < 256 → Lacks b'*' (show_hex n ++ tail)
  hex-Lacks n h =
      let (p, q, r, t) = hex_ascii n h in
      (not_star (hex_digit (n / 16)) p, (not_star (hex_digit (n % 16)) r, no_star))

  frame-hex :
      (n : ℕ)
      → n < 256
      → frame (pre ++ (s ++ (b'*' ∷ (show_hex n ++ tail)))) ≡ (verify s (show_hex n) >>= typed)
  frame-hex n h =
      let (p, q, r, t) = hex_ascii n h in
      frame-verify pre s no_dollar no_bang marked (hex_digit (n / 16)) (hex_digit (n % 16)) tail q t
        (hex-Lacks n h)

  -- A sentence with its own checksum behind it is read as the sentence alone, whatever stands in
  -- front of its mark and behind the checksum (`$` and `!` may not stand in front, `*` not behind,
  -- and the sentence holds no `*`).
  pub frame-sealed :
      Lacks b'*' s → frame (pre ++ (s ++ (b'*' ∷ (show_hex (checksum s) ++ tail)))) ≡ frame s
  frame-sealed plain =
      frame-hex (checksum s) (checksum-lt s)
      ∙ ap (λ (o : Outcome Text). o >>= typed) (verify-same s)
      ∙ sym (frame-plain s marked plain)

-- A sentence in which one character behind the mark was changed, in its low byte, is rejected as
-- corrupted by the checksum of the original.
pub frame-changed :
    (m : ℕ) (a b tail : Text) (c c' : ℕ)
    → Marked (m ∷ [])
    → Lacks b'*' tail
    → c % 256 ≢ c' % 256
    → frame ((m ∷ (a ++ (c' ∷ b))) ++ (b'*' ∷ (show_hex (checksum (m ∷ (a ++ (c ∷ b)))) ++ tail)))
      ≡ err corrupted_sentence
frame-changed m a b tail c c' marked no_star ne =
    let old = checksum (m ∷ (a ++ (c ∷ b))) in
    frame-hex [] (m ∷ (a ++ (c' ∷ b))) tail tt tt marked no_star old (checksum-lt _)
    ∙ ap (λ (o : Outcome Text). o >>= typed)
        (verify-ne (m ∷ (a ++ (c' ∷ b))) (hex_digit (old / 16)) (hex_digit (old % 16)) (λ e. ne (
          checksum-changed m a b c c' (
            show_hex-injective old (checksum (m ∷ (a ++ (c' ∷ b)))) (checksum-lt _) (checksum-lt _)
              e))))
