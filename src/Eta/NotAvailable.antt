-- ===== src/Eta/NotAvailable.antt =====
-- When a message gives no estimated time of arrival.
use nmea_parser.Common.{
  ℕ, ◌+◌, ◌%◌, ◌^◌, ◌<◌, ◌≡◌, ◌≢◌, ◌↔◌, ◌&&◌, ◌==◌, if◌then◌else◌, Option, none, arith, Outcome, ok,
}
use nmea_parser.Bits.{Bits, pick_u64}
use nmea_parser.Bits.Pick.{pick_u64-lt}
use nmea_parser.Chrono.{Chrono}
use nmea_parser.Eta.{choose_eta, complete_eta, pick_eta_with_now}

narrow : (v : ℕ) → v < 2 ^ 32 → v % 2 ^ 32 ≡ v
narrow v h = grind arith

module _ {T : Type 0} (chrono : Chrono T) where
  choose_eta-ne_none : (now : T) (a b : Outcome T) → choose_eta chrono now a b ≢ ok none
  unfolding choose_eta
  choose_eta-ne_none now a b = ground arith

  complete_eta-ne_none : (now : T) (m d h min : ℕ) → complete_eta chrono now m d h min ≢ ok none
  unfolding complete_eta
  complete_eta-ne_none now m d h min = choose_eta-ne_none now _ _

  given_or_completed :
      (m d h min : ℕ) (other : Outcome (Option T))
      → other ≢ ok none
      → ((if m == 0 && d == 0 && h == 24 && min == 60 then ok none else other) ≡ ok none)
        ↔ (m ≡ 0) × (d ≡ 0) × (h ≡ 24) × (min ≡ 60)
  given_or_completed m d h min other ne = ground arith

  -- The time of arrival is absent exactly where the month and the day are 0, the hour is 24 and the
  -- minute is 60; any other fields give a date or an error.
  pub pick_eta_with_now-none :
      (bv : Bits) (index : ℕ) (now : T)
      → (pick_eta_with_now chrono bv index now ≡ ok none)
        ↔ (pick_u64 bv index 4 ≡ 0)
          × (pick_u64 bv (index + 4) 5 ≡ 0)
          × (pick_u64 bv (index + 4 + 5) 5 ≡ 24)
          × (pick_u64 bv (index + 4 + 5 + 5) 6 ≡ 60)
  unfolding pick_eta_with_now
  pick_eta_with_now-none bv index now =
      let a = pick_u64 bv index 4 in
      let b = pick_u64 bv (index + 4) 5 in
      let c = pick_u64 bv (index + 4 + 5) 5 in
      let e = pick_u64 bv (index + 4 + 5 + 5) 6 in
      rw
        (
          narrow a (omega (arith, pick_u64-lt bv index 4)),
          narrow b (omega (arith, pick_u64-lt bv (index + 4) 5)),
          narrow c (omega (arith, pick_u64-lt bv (index + 4 + 5) 5)),
          narrow e (omega (arith, pick_u64-lt bv (index + 4 + 5 + 5) 6)),
        )
        (given_or_completed a b c e (complete_eta chrono now a b c e)
          (complete_eta-ne_none now a b c e))
