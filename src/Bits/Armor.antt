-- ===== src/Bits/Armor.antt =====
-- The payload armoring of AIS sentences: six bits to a character.
use nmea_parser.Common.{
  ℕ, suc, ◌+◌, ◌-◌, ◌*◌, ◌/◌, ◌%◌, ◌≤◌, ◌<◌, ◌≡◌, refl, ap, Bool, true, false, List, [], ◌∷◌, ◌++◌,
  ltb, if◌then◌else◌, ◌↔◌, inl, inr, ltb→lt, arith, Bool-cases, length, map, ok, panic,
}
use nmea_parser.Text.{Text}
use nmea_parser.Bits.{Bits, payload_value, six_bits, parse_payload}
use nmea_parser.Bits.Pick.{to_bits}

-- The character of a value below 64: `0` to `W`, then `` ` `` to `w`.
abbrev pub armor : ℕ → ℕ
armor v = if ltb v 40 then v + 48 else v + 56

-- The bits of a list of six-bit values.
abbrev pub groups : List ℕ → Bits
groups [] = []
groups (v ∷ vs) = to_bits 6 v ++ groups vs

abbrev pub AllBelow64 : List ℕ → Type 0
AllBelow64 [] = Unit
AllBelow64 (v ∷ vs) = (v < 64) × AllBelow64 vs

-- Every character's low byte is at least `0`, the first of the armoring.
abbrev pub Armored : Text → Type 0
Armored [] = Unit
Armored (c ∷ t) = (48 ≤ c % 256) × Armored t

over_one : (v : ℕ) → v / 1 ≡ v
over_one v = omega arith

six_bits-to_bits : (v : ℕ) → six_bits v ≡ to_bits 6 v
unfolding six_bits to_bits
six_bits-to_bits v = rw (over_one v)

payload_value-armor : (checks : Bool) (v : ℕ) → v < 64 → payload_value checks (armor v) ≡ ok v
unfolding payload_value
payload_value-armor checks v h = ground arith

-- `parse_payload` undoes the armoring of any six-bit values, with or without overflow checks.
pub parse_payload-armor :
    (checks : Bool) (vs : List ℕ)
    → AllBelow64 vs
    → parse_payload checks (map armor vs) ≡ ok (groups vs)
unfolding parse_payload
parse_payload-armor checks [] h = refl
parse_payload-armor checks (v ∷ vs) h =
    rw (payload_value-armor checks v h.0, parse_payload-armor checks vs h.1)
      (ap (λ (bs : Bits). ok (bs ++ groups vs)) (six_bits-to_bits v))

payload_value-ok :
    (checks : Bool) (c : ℕ) → 48 ≤ c % 256 → (v : ℕ) × (payload_value checks c ≡ ok v)
unfolding payload_value
payload_value-ok checks c h =
    let ci : ℕ = (c % 256 + 256 - 48) % 256 in (if ltb 40 ci then ci - 8 else ci, ground arith)

length-group :
    (v : ℕ) (bv : Bits) (n : ℕ) → length bv ≡ 6 * n → length (six_bits v ++ bv) ≡ 6 * suc n
unfolding six_bits
length-group v bv n e = omega (arith, e)

-- Armored characters give six bits each, and the parse succeeds.
pub parse_payload-ok :
    (checks : Bool) (t : Text)
    → Armored t
    → (bv : Bits) × (parse_payload checks t ≡ ok bv) × (length bv ≡ 6 * length t)
unfolding parse_payload
parse_payload-ok checks [] h = ([], refl, refl)
parse_payload-ok checks (c ∷ t) h =
    let (v, e) = payload_value-ok checks c h.0 in
    let (bv, p, n) = parse_payload-ok checks t h.1 in
    (six_bits v ++ bv, rw (e, p), length-group v bv (length t) n)

payload_value-low :
    (checks : Bool) (c : ℕ) → c % 256 < 48 → checks ≡ true → payload_value checks c ≡ panic
unfolding payload_value
payload_value-low checks c h e = ground arith

payload_value_unchecked : (c : ℕ) → (v : ℕ) × (payload_value false c ≡ ok v)
unfolding payload_value
payload_value_unchecked c =
    let ci : ℕ = (c % 256 + 256 - 48) % 256 in (if ltb 40 ci then ci - 8 else ci, ground arith)

-- Without overflow checks every payload gives six bits for each of its characters.
pub parse_payload_unchecked :
    (t : Text) → (bv : Bits) × (parse_payload false t ≡ ok bv) × (length bv ≡ 6 * length t)
unfolding parse_payload
parse_payload_unchecked [] = ([], refl, refl)
parse_payload_unchecked (c ∷ t) =
    let (v, e) = payload_value_unchecked c in
    let (bv, p, n) = parse_payload_unchecked t in
    (six_bits v ++ bv, rw (e, p), length-group v bv (length t) n)

not-Armored : (t : Text) → ¬ Armored t → parse_payload true t ≡ panic
unfolding parse_payload
not-Armored [] h = absurd (h tt)
not-Armored (c ∷ t) h = elim (Bool-cases (ltb (c % 256) 48)) [
  | inl low ↦ rw (payload_value-low true c (ltb→lt _ _ low) refl)
  | inr high ↦
      let above : 48 ≤ c % 256 = ground arith in
      let (v, e) = payload_value-ok true c above in rw (e, not-Armored t (λ a. h (above, a)))
]

-- With overflow checks `parse_payload` panics exactly on the payloads that have a character whose
-- low byte is below `0`.
pub parse_payload_checked : (t : Text) → (parse_payload true t ≡ panic) ↔ (¬ Armored t)
parse_payload_checked t = (λ e a. let (bv, p, n) = parse_payload-ok true t a in cc, not-Armored t)
