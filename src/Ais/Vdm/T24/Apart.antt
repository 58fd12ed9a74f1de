-- ===== src/Ais/Vdm/T24/Apart.antt =====
-- A static data report leaves what the store holds of other vessels as it is.
use nmea_parser.Common.{
  ℕ, ◌≡◌, ◌≢◌, Bool, false, ◌==◌, ==_iff, Bool-cases, Option-cases, Outcome-cases, inl, inr,
}
use nmea_parser.Bits.{Bits, pick_u64}
use nmea_parser.Store.{NmeaParser, pull_vsd}
use nmea_parser.Ais.Types.{Station}
use nmea_parser.Ais.Data.{VesselStaticData}
use nmea_parser.Ais.Fields.{pick_u32}
use nmea_parser.Ais.Vdm.T24.{part_number, respond, handle}
use nmea_parser.Ais.Vdm.T24.Pairs.{
  held, held-push_vsd, held-pull_vsd, respond_first, respond_second,
}
use nmea_parser.Ais.Vdm.T24.Stored.{static_part-IsPart}

eq-ne : (a b : ℕ) → a ≢ b → (a == b) ≡ false
eq-ne a b ne = elim (Bool-cases (a == b)) [ inl p ↦ absurd (ne ((==_iff a b).0 p)) | inr p ↦ p ]

module _ (F G : Type 0) {T : Type 0} (store : NmeaParser T) (other : ℕ) where
  held-pull_other : (k : ℕ) → k ≢ other → held (pull_vsd store k).0 other ≡ held store other
  held-pull_other k ne = rw (held-pull_vsd store k other, eq-ne k other ne)

  held-respond :
      (v : VesselStaticData T)
      → v.mmsi ≢ other
      → held (respond {F = F} {G = G} store v).0 other ≡ held store other
  held-respond v ne = elim (Option-cases (held store v.mmsi)) [
    | inl e ↦ rw (respond_first {F = F} {G = G} store v e) (
        rw (held-push_vsd (pull_vsd store v.mmsi).0 v.mmsi v other, eq-ne v.mmsi other ne)
          (held-pull_other v.mmsi ne))
    | inr (w, e) ↦ rw (respond_second {F = F} {G = G} store v w e) (held-pull_other v.mmsi ne)
  ]

  pub held-handle :
      (bv : Bits) (s : Station) (own : Bool)
      → pick_u32 bv 8 30 ≢ other
      → held (handle {F = F} {G = G} bv s store own).0 other ≡ held store other
  unfolding handle
  held-handle bv s own ne = elim (Outcome-cases (part_number (pick_u64 bv 38 2))) [
    | inl (b, e) ↦
        let (v, ev, p) = static_part-IsPart {T = T} bv own b in
        rw (e, ev) (held-respond v (λ q. ne (rw (← p.0) q)))
    | inr (inl (e, q)) ↦ rw q
    | inr (inr q) ↦ rw q
  ]
