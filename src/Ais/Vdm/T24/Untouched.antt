-- ===== src/Ais/Vdm/T24/Untouched.antt =====
-- The fragments of AIS messages, which static data reports leave alone.
use nmea_parser.Common.{◌≡◌, inl, inr, Bool, Outcome-cases, ◌>>=◌, arith}
use nmea_parser.Bits.{Bits, pick_u64}
use nmea_parser.Store.{NmeaParser, push_vsd, pull_vsd}
use nmea_parser.Ais.Types.{Station}
use nmea_parser.Ais.Data.{VesselStaticData}
use nmea_parser.Ais.Vdm.T24.{static_part, part_number, respond, handle}

module _ (F G : Type 0) {T : Type 0} where
  respond-saved_fragments :
      (store : NmeaParser T) (vsd : VesselStaticData T)
      → (respond {F = F} {G = G} store vsd).0.saved_fragments ≡ store.saved_fragments
  unfolding respond push_vsd pull_vsd
  respond-saved_fragments store vsd = ground arith

  -- The fragments of messages stay as they are.
  pub handle-saved_fragments :
      (bv : Bits) (s : Station) (store : NmeaParser T) (own : Bool)
      → (handle {F = F} {G = G} bv s store own).0.saved_fragments ≡ store.saved_fragments
  unfolding handle
  handle-saved_fragments bv s store own =
      elim (Outcome-cases (part_number (pick_u64 bv 38 2) >>= static_part {T = T} bv own)) [
        | inl (vsd, e) ↦ rw (e, handle) (respond-saved_fragments store vsd)
        | inr (inl (e, p)) ↦ rw (p, handle)
        | inr (inr p) ↦ rw (p, handle)
      ]
