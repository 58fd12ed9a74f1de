-- ===== src/Ais/Vdm/Slices.antt =====
-- Types 25 and 26: the slice behind the header of a message that is too short.
use nmea_parser.Common.{
  ℕ, ◌+◌, ◌-◌, ◌^◌, max, ◌≤◌, ◌<◌, ◌≡◌, ◌↔◌, inl, inr, Bool, true, false, ltb, ltb→lt, Bool-cases,
  arith, length, take, drop, ok, panic,
}
use nmea_parser.Bits.{Bits}
use nmea_parser.Ais.Types.{Station}
use nmea_parser.Ais.Fields.{flag}
use nmea_parser.Ais.Vdm.T25
use nmea_parser.Ais.Vdm.T25.{slice_from, data_start}
use nmea_parser.Ais.Vdm.T26
use nmea_parser.Ais.Vdm.T26.{before_radio}

-- The header of a message: 70 bits if it is addressed, else 86 if it is structured, else 40.
abbrev pub header : Bits → ℕ
header bv = data_start (flag bv 38) (flag bv 39)

slice_short : (bv : Bits) (start end : ℕ) → length bv < start → slice_from bv start end ≡ panic
unfolding slice_from
slice_short bv start end h = ground arith

slice_past : (bv : Bits) (start end : ℕ) → length bv < end → slice_from bv start end ≡ panic
unfolding slice_from
slice_past bv start end h = ground arith

slice_fits :
    (bv : Bits) (start end : ℕ)
    → start ≤ length bv
    → end ≤ length bv
    → slice_from bv start end ≡ ok (take (max start end - start) (drop start bv))
unfolding slice_from
slice_fits bv start end h k = ground arith

le_of_ltb : (a b : ℕ) → ltb a b ≡ false → b ≤ a
le_of_ltb a b h = ground arith

before_radio-lt :
    (len : ℕ)
    → len < 20
    → (before_radio true len ≡ panic) × (before_radio false len ≡ ok (len + 2 ^ 64 - 20))
unfolding before_radio
before_radio-lt len h = (ground arith, ground arith)

before_radio-le :
    (checks : Bool) (len : ℕ) → 20 ≤ len → len < 2 ^ 64 → before_radio checks len ≡ ok (len - 20)
unfolding before_radio
before_radio-le checks len h k = ground arith

header_bounds : (bv : Bits) → 40 ≤ header bv
header_bounds bv = ground arith

module _ {F T G : Type 0} (bv : Bits) (s : Station) (own : Bool) where
  -- Type 25 panics exactly on the messages that end inside their header.
  pub single_slot_panics :
      (T25.handle {F = F} {T = T} {G = G} bv s own ≡ panic) ↔ (length bv < header bv)
  unfolding T25.handle
  single_slot_panics = elim (Bool-cases (ltb (length bv) (header bv))) [
    | inl short ↦ (λ _. ltb→lt _ _ short, λ h. rw (slice_short bv (header bv) (length bv) h))
    | inr long ↦
        let fits : header bv ≤ length bv = le_of_ltb (length bv) (header bv) long in
        (
          λ e. cc (slice_fits bv (header bv) (length bv) fits (omega arith)),
          λ h. absurd (omega arith),
        )
  ]

  short_panics :
      (checks : Bool)
      → length bv < header bv
      → length bv < 2 ^ 64
      → T26.handle {F = F} {T = T} {G = G} checks bv s own ≡ panic
  unfolding T26.handle
  short_panics checks h k = elim (Bool-cases (ltb (length bv) 20)) [
    | inr long ↦ rw (
      before_radio-le checks (length bv) (le_of_ltb (length bv) 20 long) k,
      slice_short bv (header bv) (length bv - 20) h,
    )
    | inl short ↦ wraps checks (ltb→lt _ _ short)
  ]
    where
      wraps :
          (checks : Bool)
          → length bv < 20
          → T26.handle {F = F} {T = T} {G = G} checks bv s own ≡ panic
      wraps true h = rw (before_radio-lt (length bv) h).0
      wraps false h = rw (
        (before_radio-lt (length bv) h).1,
        slice_past bv (header bv) (length bv + 2 ^ 64 - 20) (omega arith),
      )

  -- Type 26 panics on the same messages, whether the build checks for overflow or not, for a vector
  -- whose length is a 64-bit usize.
  pub multiple_slot_panics :
      (overflow_checks : Bool)
      → length bv < 2 ^ 64
      → (T26.handle {F = F} {T = T} {G = G} overflow_checks bv s own ≡ panic)
        ↔ (length bv < header bv)
  unfolding T26.handle
  multiple_slot_panics overflow_checks k = elim (Bool-cases (ltb (length bv) (header bv))) [
    | inl short ↦ (λ _. ltb→lt _ _ short, λ h. short_panics overflow_checks h k)
    | inr long ↦
        let fits : header bv ≤ length bv = le_of_ltb (length bv) (header bv) long in
        let most : 40 ≤ header bv = header_bounds bv in
        (
          λ e. cc (
            before_radio-le overflow_checks (length bv) (omega arith) k,
            slice_fits bv (header bv) (length bv - 20) fits (omega arith),
          ),
          λ h. absurd (omega arith),
        )
  ]
