-- ===== src/Ais/Vdm/T27/Overlap.antt =====
-- Type 27 picks its speed, its course and its position status from the bits of the latitude.
use nmea_parser.Common.{◌≡◌, refl, ◌↔◌, Bool, true, some, arith, pos, ◌≤ℤ◌, ◌<ℤ◌}
use nmea_parser.Bits.{Bits, pick_u64, pick_i64}
use nmea_parser.Bits.Pick.{pick_u64-lt, pick_u64-add}
use nmea_parser.Bits.Signed.{pick_i64-sign, pick_i64-injective}
use nmea_parser.Numbers.{F64}
use nmea_parser.Ais.Types.{Station}
use nmea_parser.Ais.Vdm.T27.{report}

module _ {F : Type 0} (f64 : F64 F) (s : Station) (own : Bool) where
  -- Two messages with one latitude have one speed, one course and one position status, whatever
  -- their other bits are.
  pub report-latitude_determines :
      (bv bv' : Bits)
      → pick_i64 bv 62 17 ≡ pick_i64 bv' 62 17
      → let r = report f64 bv s own in
        let r' = report f64 bv' s own in
        (r.sog_knots ≡ r'.sog_knots)
        × (r.cog ≡ r'.cog)
        × (r.current_gnss_position ≡ r'.current_gnss_position)
  unfolding report
  report-latitude_determines bv bv' e =
      let raw : pick_u64 bv 62 17 ≡ pick_u64 bv' 62 17 =
        pick_i64-injective bv bv' 62 17 (omega arith) (omega arith) e in
      let six : pick_u64 bv 62 6 ≡ pick_u64 bv' 62 6 = omega (
        arith,
        pick_u64-add bv 62 6 11 (omega arith),
        pick_u64-add bv' 62 6 11 (omega arith),
        pick_u64-lt bv 68 11 (omega arith),
        pick_u64-lt bv' 68 11 (omega arith),
        raw,
      ) in
      let one : pick_u64 bv 62 1 ≡ pick_u64 bv' 62 1 = omega (
        arith,
        pick_u64-add bv 62 1 16 (omega arith),
        pick_u64-add bv' 62 1 16 (omega arith),
        pick_u64-lt bv 63 16 (omega arith),
        pick_u64-lt bv' 63 16 (omega arith),
        raw,
      ) in
      rw (raw, six, one) (refl, refl, refl)

  -- A position is reported as a GNSS position exactly when it is not south of the equator.
  pub report-gnss_iff_north :
      (bv : Bits)
      → ((report f64 bv s own).current_gnss_position ≡ some true) ↔ (pos 0 ≤ℤ pick_i64 bv 62 17)
  unfolding report
  report-gnss_iff_north bv =
      let (to, from) = pick_i64-sign bv 62 17 (omega arith) (omega arith) in
      let bound = pick_u64-lt bv 62 1 (omega arith) in
      (λ e. north (λ n. ground (arith, to n)), λ p. ground (arith, from))
    where
      north : ¬ (pick_i64 bv 62 17 <ℤ pos 0) → pos 0 ≤ℤ pick_i64 bv 62 17
      north h = omega arith
