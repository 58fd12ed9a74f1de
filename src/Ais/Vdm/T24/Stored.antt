-- ===== src/Ais/Vdm/T24/Stored.antt =====
-- The static data that waits in the store for its other part, and why two parts always merge.
use nmea_parser.Common.{
  bind-ne_panic, safe_steps, ok-ne_panic, ◌≢◌, ℕ, zero, suc, ◌<◌, ◌≡◌, refl, ◌⊎◌, inl, inr, Bool,
  true, false, ◌==◌, ==_iff, none, some, List, [], ◌∷◌, Bool-cases, Option-cases, Outcome-cases, ok,
  panic, arith,
}
use nmea_parser.Bits.{Bits, pick_u64}
use nmea_parser.Message.{ParsedMessage}
use nmea_parser.Store.{NmeaParser, lookup, insert, remove, eq_mmsi, push_vsd, pull_vsd}
use nmea_parser.Ais.Types.{Station, AisClass}
use nmea_parser.Ais.Data.{VesselStaticData}
use nmea_parser.Ais.Fields.{pick_u32}
use nmea_parser.Ais.Vdm.T24.{merge, merged, static_part, part_number, respond, handle}
use nmea_parser.Ais.Vdm.T24.Merge.{static_part-a, static_part-b}
use nmea_parser.Ais.Vdm.T24.Pairs.{held, respond_first, respond_second}

module _ {T : Type 0} where
  -- A part of the report of the vessel `mmsi`: what `merge` compares is the same in all of them.
  abbrev pub IsPart : ℕ → VesselStaticData T → Type 0
  IsPart mmsi vsd =
      (vsd.mmsi ≡ mmsi)
      × (vsd.ais_type ≡ AisClass.class_b)
      × (vsd.imo_number ≡ none)
      × (vsd.ais_version_indicator ≡ 0)

  abbrev pub AllParts : List (ℕ × VesselStaticData T) → Type 0
  AllParts [] = Unit
  AllParts ((mmsi, vsd) ∷ entries) = IsPart mmsi vsd × AllParts entries

  -- Every report in the store is a part, under the MMSI of its vessel.
  abbrev pub HoldsParts : NmeaParser T → Type 0
  HoldsParts self = AllParts self.saved_vsds

  AllParts-insert :
      (mmsi : ℕ) (vsd : VesselStaticData T) (entries : List (ℕ × VesselStaticData T))
      → IsPart mmsi vsd
      → AllParts entries
      → AllParts (insert eq_mmsi mmsi vsd entries)
  unfolding insert
  AllParts-insert mmsi vsd [] p h = (p, tt)
  AllParts-insert mmsi vsd ((k, v) ∷ entries) p h = elim (Bool-cases (k == mmsi)) [
    | inl e ↦ rw e (p, h.1)
    | inr e ↦ rw e (h.0, AllParts-insert mmsi vsd entries p h.1)
  ]

  AllParts-remove :
      (mmsi : ℕ) (entries : List (ℕ × VesselStaticData T))
      → AllParts entries
      → AllParts (remove eq_mmsi mmsi entries)
  unfolding remove
  AllParts-remove mmsi [] h = tt
  AllParts-remove mmsi ((k, v) ∷ entries) h = elim (Bool-cases (k == mmsi)) [
    | inl e ↦ rw e (AllParts-remove mmsi entries h.1)
    | inr e ↦ rw e (h.0, AllParts-remove mmsi entries h.1)
  ]

  AllParts-lookup :
      (mmsi : ℕ) (vsd : VesselStaticData T) (entries : List (ℕ × VesselStaticData T))
      → AllParts entries
      → lookup eq_mmsi mmsi entries ≡ some vsd
      → IsPart mmsi vsd
  unfolding lookup
  AllParts-lookup mmsi vsd [] h e = cc
  AllParts-lookup mmsi vsd ((k, v) ∷ entries) h e = elim (Bool-cases (k == mmsi)) [
    | inl q ↦ let same : v ≡ vsd = cc (q, e) in rw (← (==_iff k mmsi).0 q, ← same) h.0
    | inr q ↦ AllParts-lookup mmsi vsd entries h.1 (cc (q, e))
  ]

  pub static_part-IsPart :
      (bv : Bits) (own b : Bool)
      → (vsd : VesselStaticData T) × (static_part bv own b ≡ ok vsd) × IsPart (pick_u32 bv 8 30) vsd
  static_part-IsPart bv own false =
      let (name, e) = static_part-a bv own in (_, e, (refl, refl, refl, refl))
  static_part-IsPart bv own true =
      let (call_sign, vendor, e) = static_part-b bv own in (_, e, (refl, refl, refl, refl))

  merge-IsPart :
      (mmsi : ℕ) (v w : VesselStaticData T)
      → IsPart mmsi v
      → IsPart mmsi w
      → merge v w ≡ ok (merged v w)
  unfolding merge
  merge-IsPart mmsi v w p q =
      rw (p.0, p.1, p.2, p.3, q.0, q.1, q.2, q.3, (==_iff mmsi mmsi).1 refl, merge)

module _ (F G : Type 0) {T : Type 0} where
  HoldsParts-respond :
      (store : NmeaParser T) (vsd : VesselStaticData T) (mmsi : ℕ)
      → IsPart mmsi vsd
      → HoldsParts store
      → HoldsParts (respond {F = F} {G = G} store vsd).0
  unfolding push_vsd pull_vsd
  HoldsParts-respond store vsd mmsi p h = elim (Option-cases (held store vsd.mmsi)) [
    | inl e ↦ rw (respond_first {F = F} {G = G} store vsd e) (
        AllParts-insert vsd.mmsi vsd (remove eq_mmsi vsd.mmsi store.saved_vsds)
          (refl, p.1, p.2, p.3) (AllParts-remove vsd.mmsi store.saved_vsds h))
    | inr (w, e) ↦
        rw (respond_second {F = F} {G = G} store vsd w e)
          (AllParts-remove vsd.mmsi store.saved_vsds h)
  ]

  -- A static data report keeps every report in the store a part under its MMSI.
  pub HoldsParts-handle :
      (bv : Bits) (s : Station) (store : NmeaParser T) (own : Bool)
      → HoldsParts store
      → HoldsParts (handle {F = F} {G = G} bv s store own).0
  unfolding handle
  HoldsParts-handle bv s store own h = elim (Outcome-cases (part_number (pick_u64 bv 38 2))) [
    | inl (b, e) ↦
        let (vsd, es, p) = static_part-IsPart {T = T} bv own b in
        rw (e, es) (HoldsParts-respond store vsd (pick_u32 bv 8 30) p h)
    | inr (inl (e, q)) ↦ rw q h
    | inr (inr q) ↦ rw q h
  ]

  respond-merges :
      (store : NmeaParser T) (vsd : VesselStaticData T) (mmsi : ℕ)
      → IsPart mmsi vsd
      → HoldsParts store
      → ((respond {F = F} {G = G} store vsd).1 ≡ ok ParsedMessage.incomplete)
        ⊎ ((v : VesselStaticData T) × ((respond {F = F} {G = G} store vsd).1
              ≡ ok (ParsedMessage.vessel_static_data v))
            × (v.mmsi ≡ mmsi))
  respond-merges store vsd mmsi p h = elim (Option-cases (held store vsd.mmsi)) [
    | inl e ↦ inl (rw (respond_first {F = F} {G = G} store vsd e))
    | inr (w, e) ↦
        let q = AllParts-lookup vsd.mmsi w store.saved_vsds h e in
        inr (
          merged vsd w,
          rw (
            respond_second {F = F} {G = G} store vsd w e,
            merge-IsPart vsd.mmsi vsd w (refl, p.1, p.2, p.3) q,
          ),
          unfold merged in p.0,
        )
  ]

  -- In a store of parts every part A or B is answered, by no message or by the complete report of
  -- its vessel: two parts are never refused, and nothing panics.
  pub handle-answered :
      (bv : Bits) (s : Station) (store : NmeaParser T) (own : Bool)
      → HoldsParts store
      → pick_u64 bv 38 2 < 2
      → ((handle {F = F} {G = G} bv s store own).1 ≡ ok ParsedMessage.incomplete)
        ⊎ ((v : VesselStaticData T) × ((handle {F = F} {G = G} bv s store own).1
              ≡ ok (ParsedMessage.vessel_static_data v))
            × (v.mmsi ≡ pick_u32 bv 8 30))
  unfolding handle
  handle-answered bv s store own h small =
      let (b, e) = part_number-below (pick_u64 bv 38 2) small in
      let (vsd, es, p) = static_part-IsPart {T = T} bv own b in
      rw (e, es) (respond-merges store vsd (pick_u32 bv 8 30) p h)
    where
      part_number-below : (n : ℕ) → n < 2 → (b : Bool) × (part_number n ≡ ok b)
      part_number-below zero small = (false, refl)
      part_number-below (suc zero) small = (true, refl)
      part_number-below (suc (suc n)) small = absurd (omega arith)

  merge-ne_panic : (v w : VesselStaticData T) → merge v w ≢ panic
  unfolding merge
  merge-ne_panic v w = search safe_steps depth 20

  respond-ne_panic :
      (store : NmeaParser T) (vsd : VesselStaticData T)
      → (respond {F = F} {G = G} store vsd).1 ≢ panic
  respond-ne_panic store vsd = elim (Option-cases (held store vsd.mmsi)) [
    | inl e ↦ rw (respond_first {F = F} {G = G} store vsd e) (ok-ne_panic _)
    | inr (w, e) ↦
        rw (respond_second {F = F} {G = G} store vsd w e)
          (bind-ne_panic (merge vsd w) _ (merge-ne_panic vsd w) (λ v. ok-ne_panic _))
  ]

  -- No static data report makes the handler panic, whatever the store holds.
  pub handle-ne_panic :
      (bv : Bits) (s : Station) (store : NmeaParser T) (own : Bool)
      → (handle {F = F} {G = G} bv s store own).1 ≢ panic
  unfolding handle
  handle-ne_panic bv s store own = elim (Outcome-cases (part_number (pick_u64 bv 38 2))) [
    | inl (b, e) ↦
        let (vsd, es, p) = static_part-IsPart {T = T} bv own b in
        rw (e, es) (respond-ne_panic store vsd)
    | inr (inl (e, q)) ↦ rw q (λ p. cc)
    | inr (inr q) ↦ absurd (unknown_part (pick_u64 bv 38 2) q)
  ]
    where
      unknown_part : (n : ℕ) → part_number n ≢ panic
      unknown_part n = ground arith
