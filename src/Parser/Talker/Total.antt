-- ===== src/Parser/Talker/Total.antt =====
-- The talker of a sentence whose type has passed the check of its characters.
use nmea_parser.Common.{
  ℕ, ◌<◌, ◌≡◌, ◌≢◌, true, some, [], ◌∷◌, ltb, Bool-cases, inl, inr, panic, if-ne_panic, ok-ne_panic,
  bind-ne_panic, safe_steps, arith,
}
use nmea_parser.Text.{Text, byte_len, get_range}
use nmea_parser.Text.Slices.{get_range-front, split_at-zero, split_at-ascii}
use nmea_parser.Parser.Frame.Sealed.{two_ascii}
use nmea_parser.Parser.Frame.{is_type_char, all_type_chars}
use nmea_parser.Parser.Talker.{navigation_system, station, identify, get_from_one, starts_with}

type_char-ascii : (c : ℕ) → is_type_char c ≡ true → c < 0x80
type_char-ascii c h = ground arith

all_type_chars-cons :
    (c : ℕ) (t : Text) → all_type_chars (c ∷ t) ≡ true → (c < 0x80) × (all_type_chars t ≡ true)
unfolding all_type_chars
all_type_chars-cons c t h = elim (Bool-cases (is_type_char c)) [
  | inl p ↦ (type_char-ascii c p, cc (p, h))
  | inr p ↦ absurd (cc (p, h))
]

first_one : (c : ℕ) (t : Text) → c < 0x80 → get_range (c ∷ t) 0 1 ≡ some (c ∷ [])
first_one c t h =
    get_range-front (c ∷ t) 1 (c ∷ []) t (split_at-ascii c 0 t [] t h (split_at-zero t))

byte_len-one : (c : ℕ) → c < 0x80 → ltb (byte_len (c ∷ [])) 2 ≡ true
unfolding byte_len
byte_len-one c h = ground arith

navigation_system-ne_panic : (t : Text) → all_type_chars t ≡ true → navigation_system t ≢ panic
unfolding navigation_system
navigation_system-ne_panic [] h = ground arith
navigation_system-ne_panic (c ∷ []) h =
    let (a, _) = all_type_chars-cons c [] h in
    rw (first_one c [] a, byte_len-one c a) (ground arith)
navigation_system-ne_panic (c ∷ d ∷ t) h =
    let (a, k) = all_type_chars-cons c (d ∷ t) h in
    let (b, _) = all_type_chars-cons d t k in
    rw (first_one c (d ∷ t) a, two_ascii c d t a b) (ground arith)

station-ne_panic : (t : Text) → all_type_chars t ≡ true → station t ≢ panic
unfolding station
station-ne_panic [] h = unfold byte_len in ground arith
station-ne_panic (c ∷ []) h =
    let (a, _) = all_type_chars-cons c [] h in rw (byte_len-one c a) (ground arith)
station-ne_panic (c ∷ d ∷ t) h =
    let (a, k) = all_type_chars-cons c (d ∷ t) h in
    let (b, _) = all_type_chars-cons d t k in rw (two_ascii c d t a b) (ground arith)

-- The talker of a checked sentence type is told without a panic: every slice of it is at the border
-- of a character.
pub identify-ne_panic : (t : Text) → all_type_chars t ≡ true → identify t ≢ panic
unfolding identify
identify-ne_panic [] h = ground arith
identify-ne_panic (c ∷ t) h =
    let (a, k) = all_type_chars-cons c t h in
    let rest : get_from_one (c ∷ t) ≡ some t =
      rw (get_from_one, split_at-ascii c 0 t [] t a (split_at-zero t)) in
    if-ne_panic (starts_with b'$' (c ∷ t)) _ _
      (rw rest (
        bind-ne_panic (navigation_system t) _ (navigation_system-ne_panic t k)
          (λ nav. search safe_steps depth 20)))
      (if-ne_panic (starts_with b'!' (c ∷ t)) _ _
        (rw rest
          (bind-ne_panic (station t) _ (station-ne_panic t k) (λ s. search safe_steps depth 20)))
        (ok-ne_panic _))
