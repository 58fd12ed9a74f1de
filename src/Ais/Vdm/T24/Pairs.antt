-- ===== src/Ais/Vdm/T24/Pairs.antt =====
-- Static data reports through the store: part A and part B in either order, and a part that comes
-- twice.
use nmea_parser.Common.{
  ℕ, ◌≡◌, refl, sym, ◌∙◌, Bool, true, false, ◌==◌, ==_iff, if◌then◌else◌, Bool-cases, inl, inr,
  Option, none, some, ok, ◌>>=◌,
}
use nmea_parser.Text.{Text}
use nmea_parser.Bits.{Bits, pick_u64}
use nmea_parser.Message.{ParsedMessage}
use nmea_parser.Store.{NmeaParser, lookup, eq_mmsi, push_vsd, pull_vsd}
use nmea_parser.Store.Laws.{lookup-insert, lookup-remove}
use nmea_parser.Ais.Types.{Station}
use nmea_parser.Ais.Data.{VesselStaticData}
use nmea_parser.Ais.Fields.{pick_u32}
use nmea_parser.Ais.Vdm.T24.{choose_some, merge, static_part, respond, handle}
use nmea_parser.Ais.Vdm.T24.Untouched.{handle-saved_fragments}
use nmea_parser.Ais.Vdm.T24.Merge.{
  part_a, full_report, static_part-a, static_part-b, merge-a-b, merge-b-a, merge-a-a,
}

-- The static data that the store holds of a vessel.
abbrev pub held : {T : Type 0} → NmeaParser T → ℕ → Option (VesselStaticData T)
held self mmsi = lookup eq_mmsi mmsi self.saved_vsds

module _ {T : Type 0} where
  pub held-push_vsd :
      (self : NmeaParser T) (k : ℕ) (v : VesselStaticData T) (j : ℕ)
      → held (push_vsd self k v) j ≡ (if k == j then some v else held self j)
  unfolding push_vsd
  held-push_vsd self k v j = lookup-insert eq_mmsi ==_iff self.saved_vsds k j v

  pub held-pull_vsd :
      (self : NmeaParser T) (k j : ℕ)
      → held (pull_vsd self k).0 j ≡ (if k == j then none else held self j)
  unfolding pull_vsd
  held-pull_vsd self k j = lookup-remove eq_mmsi ==_iff self.saved_vsds k j

  after_pair :
      (self : NmeaParser T) (k : ℕ) (v : VesselStaticData T) (j : ℕ)
      → held self k ≡ none
      → held (pull_vsd (push_vsd (pull_vsd self k).0 k v) k).0 j ≡ held self j
  after_pair self k v j e =
      rw
        (
          held-pull_vsd (push_vsd (pull_vsd self k).0 k v) k j,
          held-push_vsd (pull_vsd self k).0 k v j,
          held-pull_vsd self k j,
        )
        (elim (Bool-cases (k == j)) [
          | inl p ↦ rw p (rw (← (==_iff k j).0 p) (sym e))
          | inr p ↦ rw p
        ])

module _ {F T G : Type 0} where
  pub respond_first :
      (self : NmeaParser T) (v : VesselStaticData T)
      → held self v.mmsi ≡ none
      → respond {F = F} {G = G} self v
        ≡ (push_vsd (pull_vsd self v.mmsi).0 v.mmsi v, ok ParsedMessage.incomplete)
  unfolding respond pull_vsd
  respond_first self v e = rw (e, respond)

  pub respond_second :
      (self : NmeaParser T) (v w : VesselStaticData T)
      → held self v.mmsi ≡ some w
      → respond {F = F} {G = G} self v
        ≡ ((pull_vsd self v.mmsi).0, merge v w >>= λ u. ok (ParsedMessage.vessel_static_data u))
  unfolding respond pull_vsd
  respond_second self v w e = rw (e, respond)

  -- Two reports of one vessel, one after the other.
  respond_both :
      (self : NmeaParser T) (v w : VesselStaticData T)
      → w.mmsi ≡ v.mmsi
      → held self v.mmsi ≡ none
      → let once = respond {F = F} {G = G} self v in
        let twice = respond {F = F} {G = G} once.0 w in
        (once.1 ≡ ok ParsedMessage.incomplete)
        × (twice.1 ≡ (merge w v >>= λ u. ok (ParsedMessage.vessel_static_data u)))
        × ((j : ℕ) → held twice.0 j ≡ held self j)
  respond_both self v w same e =
      let s1 = push_vsd (pull_vsd self v.mmsi).0 v.mmsi v in
      let there : held s1 w.mmsi ≡ some v = rw (
        same,
        held-push_vsd (pull_vsd self v.mmsi).0 v.mmsi v v.mmsi,
        (==_iff v.mmsi v.mmsi).1 refl,
      ) in
      rw (respond_first self v e, respond_second s1 w v there, same)
        (refl, refl, λ j. after_pair self v.mmsi v j e)

module _ {F T G : Type 0} (bv : Bits) (s : Station) (self : NmeaParser T) (own : Bool) where
  pub handle-respond_a :
      (v : VesselStaticData T)
      → pick_u64 bv 38 2 ≡ 0
      → static_part bv own false ≡ ok v
      → handle {F = F} {G = G} bv s self own ≡ respond self v
  unfolding handle
  handle-respond_a v e e' = rw (e, e')

  pub handle-respond_b :
      (v : VesselStaticData T)
      → pick_u64 bv 38 2 ≡ 1
      → static_part bv own true ≡ ok v
      → handle {F = F} {G = G} bv s self own ≡ respond self v
  unfolding handle
  handle-respond_b v e e' = rw (e, e')

module _ {F T G : Type 0} (s : Station) (self : NmeaParser T) (a b : Bits) (own : Bool)
    (is_a : pick_u64 a 38 2 ≡ 0) (is_b : pick_u64 b 38 2 ≡ 1)
    (same : pick_u32 a 8 30 ≡ pick_u32 b 8 30) (fresh : held self (pick_u32 b 8 30) ≡ none) where
  -- Where the store holds nothing of the vessel, its parts A and B give, in either order, first no
  -- message and then one report with the name of A and the fields of B, and then the store holds of
  -- every vessel what it held before, and the same fragments.
  pub handle-either_order :
      let first = handle {F = F} {G = G} a s self own in
      let then_b = handle {F = F} {G = G} b s first.0 own in
      let second = handle {F = F} {G = G} b s self own in
      let then_a = handle {F = F} {G = G} a s second.0 own in
      (call_sign : Option Text) × (vendor : Text) × (name : Option Text) × (static_part {T = T} b
          own true
        ≡ ok (full_report b own (pick_u32 b 8 30) call_sign vendor none))
      × (static_part {T = T} a own false ≡ ok (part_a own (pick_u32 a 8 30) name))
      × (first.1 ≡ ok ParsedMessage.incomplete)
      × (then_b.1
          ≡ ok (
              ParsedMessage.vessel_static_data
                (full_report b own (pick_u32 b 8 30) call_sign vendor name)))
      × ((j : ℕ) → held then_b.0 j ≡ held self j)
      × (then_b.0.saved_fragments ≡ self.saved_fragments)
      × (second.1 ≡ ok ParsedMessage.incomplete)
      × (then_a.1
          ≡ ok (
              ParsedMessage.vessel_static_data
                (full_report b own (pick_u32 b 8 30) call_sign vendor name)))
      × ((j : ℕ) → held then_a.0 j ≡ held self j)
      × (then_a.0.saved_fragments ≡ self.saved_fragments)
  handle-either_order =
      let (name, ea) = static_part-a {T = T} a own in
      let (call_sign, vendor, eb) = static_part-b {T = T} b own in
      let m = pick_u32 b 8 30 in
      let va : VesselStaticData T = part_a own m name in
      let vb : VesselStaticData T = full_report b own m call_sign vendor none in
      let ea' : static_part a own false ≡ ok va = rw (← same) ea in
      let (p, q, r) = respond_both {F = F} {G = G} self va vb refl fresh in
      let (p', q', r') = respond_both {F = F} {G = G} self vb va refl fresh in
      (
        call_sign,
        vendor,
        name,
        eb,
        ea,
        rw (handle-respond_a a s self own va is_a ea') p,
        rw
            (
              handle-respond_a a s self own va is_a ea',
              handle-respond_b b s (respond {F = F} {G = G} self va).0 own vb is_b eb,
            )
            (q ∙ rw (merge-b-a b own m call_sign vendor name)),
        rw
            (
              handle-respond_a a s self own va is_a ea',
              handle-respond_b b s (respond {F = F} {G = G} self va).0 own vb is_b eb,
            )
            r,
        fragments a b,
        rw (handle-respond_b b s self own vb is_b eb) p',
        rw
            (
              handle-respond_b b s self own vb is_b eb,
              handle-respond_a a s (respond {F = F} {G = G} self vb).0 own va is_a ea',
            )
            (q' ∙ rw (merge-a-b b own m call_sign vendor name)),
        rw
            (
              handle-respond_b b s self own vb is_b eb,
              handle-respond_a a s (respond {F = F} {G = G} self vb).0 own va is_a ea',
            )
            r',
        fragments b a,
      )
    where
      fragments :
          (c d : Bits)
          → (handle {F = F} {G = G} d s
              (handle {F = F} {G = G} c s self own).0
              own).0.saved_fragments
            ≡ self.saved_fragments
      fragments c d =
          handle-saved_fragments F G d s (handle {F = F} {G = G} c s self own).0 own
          ∙ handle-saved_fragments F G c s self own

-- Part A twice, with no part B: the second one is answered by a complete report.
module _ {F T G : Type 0} (s : Station) (self : NmeaParser T) (a a' : Bits) (own : Bool)
    (is_a : pick_u64 a 38 2 ≡ 0) (is_a' : pick_u64 a' 38 2 ≡ 0)
    (same : pick_u32 a 8 30 ≡ pick_u32 a' 8 30) (fresh : held self (pick_u32 a' 8 30) ≡ none) where
  -- Where the store holds nothing of the vessel, two parts A of it give a complete report, of a name
  -- and of no field of part B.
  pub handle-part_a_twice :
      let first = handle {F = F} {G = G} a s self own in
      let second = handle {F = F} {G = G} a' s first.0 own in
      (name : Option Text) × (first.1 ≡ ok ParsedMessage.incomplete)
      × (second.1 ≡ ok (ParsedMessage.vessel_static_data (part_a own (pick_u32 a' 8 30) name)))
  handle-part_a_twice =
      let (name, ea) = static_part-a {T = T} a own in
      let (name', ea') = static_part-a {T = T} a' own in
      let m = pick_u32 a' 8 30 in
      let v : VesselStaticData T = part_a own m name in
      let v' : VesselStaticData T = part_a own m name' in
      let ev : static_part a own false ≡ ok v = rw (← same) ea in
      let (p, q, r) = respond_both {F = F} {G = G} self v v' refl fresh in
      (
        choose_some name' name,
        rw (handle-respond_a a s self own v is_a ev) p,
        rw
            (
              handle-respond_a a s self own v is_a ev,
              handle-respond_a a' s (respond {F = F} {G = G} self v).0 own v' is_a' ea',
            )
            (q ∙ rw (merge-a-a own m name name')),
      )
