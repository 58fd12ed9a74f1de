-- ===== src/Parser/Vdm/Exclusive.antt =====
-- The store never holds both halves of a message: what the assembly of fragments keeps.
use nmea_parser.Common.{
  ℕ, ◌≡◌, ◌≢◌, sym, ◌∙◌, ◌⊎◌, inl, inr, Bool, true, false, not, Option, none, Bool-cases,
  Option-cases,
}
use nmea_parser.Text.{Text, eq_text}
use nmea_parser.Text.Laws.{eq_text_iff, eq_text_refl}
use nmea_parser.Store.{NmeaParser, push_string, pull_string}
use nmea_parser.Parser.Vdm.{VdmFields, take_fragment, assemble}
use nmea_parser.Parser.Vdm.Fragments.{
  take_fragment_first, take_fragment_second, fragment, fragment-push_string, fragment-pull_string,
}
use nmea_parser.Parser.Vdm.Cases.{assemble-elim}
use nmea_parser.Parser.Vdm.Halves.{vdm_type, half_key, half_key-injective}

one_absent :
    {x y x' y' : Option Text}
    → (x' ≡ x) ⊎ (x' ≡ none)
    → (y' ≡ y) ⊎ (y' ≡ none)
    → (x ≡ none) ⊎ (y ≡ none)
    → (x' ≡ none) ⊎ (y' ≡ none)
one_absent (inr p) q e = inl p
one_absent (inl p) (inr q) e = inr q
one_absent (inl p) (inl q) (inl e) = inl (p ∙ e)
one_absent (inl p) (inl q) (inr e) = inr (q ∙ e)

not-ne : (c : Bool) → c ≢ not c
not-ne true e = cc
not-ne false e = cc

module _ {T : Type 0} where
  -- Of the two halves of a message, the store lacks one.
  abbrev pub Exclusive : NmeaParser T → Type 0
  Exclusive self =
      (own : Bool) (i : ℕ) (r : Text)
      → (fragment self (half_key own i r false) ≡ none)
        ⊎ (fragment self (half_key own i r true) ≡ none)

  -- A store that holds no more.
  Exclusive-less :
      (self self' : NmeaParser T)
      → ((j : Text) → (fragment self' j ≡ fragment self j) ⊎ (fragment self' j ≡ none))
      → Exclusive self
      → Exclusive self'
  Exclusive-less self self' less h own i r =
      one_absent (less (half_key own i r false)) (less (half_key own i r true)) (h own i r)

  Exclusive-pull_string :
      (self : NmeaParser T) (k : Text) → Exclusive self → Exclusive (pull_string self k).0
  Exclusive-pull_string self k = Exclusive-less self (pull_string self k).0 less
    where
      less :
          (j : Text)
          → (fragment (pull_string self k).0 j ≡ fragment self j)
            ⊎ (fragment (pull_string self k).0 j ≡ none)
      less j = elim (Bool-cases (eq_text k j)) [
        | inl p ↦ inr (rw (fragment-pull_string self k j, p))
        | inr p ↦ inl (rw (fragment-pull_string self k j, p))
      ]

  -- Behind the first half of a message, its second half is still absent.
  absent_other :
      (self : NmeaParser T) (own own' : Bool) (i i' : ℕ) (r r' v : Text) (b c : Bool)
      → fragment self (half_key own i r (not b)) ≡ none
      → half_key own i r b ≡ half_key own' i' r' c
      → fragment (push_string self (half_key own i r b) v) (half_key own' i' r' (not c)) ≡ none
  absent_other self own own' i i' r r' v b c absent e =
      let (eb, same) = half_key-injective own own' i i' r r' b c e in
      elim (Bool-cases (eq_text (half_key own i r b) (half_key own' i' r' (not c)))) [
        | inl p ↦
            let q = (eq_text_iff (half_key own i r b) (half_key own' i' r' (not c))).0 p in
            absurd (not-ne c (sym eb ∙ (half_key-injective own own' i i' r r' b (not c) q).0))
        | inr p ↦
            rw (fragment-push_string self (half_key own i r b) v (half_key own' i' r' (not c)), p)
              (rw (← same (not c), ← eb) absent)
      ]

  -- A half whose other half is absent.
  Exclusive-push_half :
      (self : NmeaParser T) (own : Bool) (i : ℕ) (r v : Text) (b : Bool)
      → fragment self (half_key own i r (not b)) ≡ none
      → Exclusive self
      → Exclusive (push_string self (half_key own i r b) v)
  Exclusive-push_half self own i r v b absent h own' i' r' = elim (same false) [
    | inl p ↦ elim (same true) [
      | inl q ↦ one_absent (inl p) (inl q) (h own' i' r')
      | inr q ↦ inl (absent_other self own own' i i' r r' v b true absent q)
    ]
    | inr p ↦ inr (absent_other self own own' i i' r r' v b false absent p)
  ]
    where
      same :
          (c : Bool)
          → (fragment (push_string self (half_key own i r b) v) (half_key own' i' r' c)
              ≡ fragment self (half_key own' i' r' c))
            ⊎ (half_key own i r b ≡ half_key own' i' r' c)
      same c = elim (Bool-cases (eq_text (half_key own i r b) (half_key own' i' r' c))) [
        | inl p ↦ inr ((eq_text_iff (half_key own i r b) (half_key own' i' r' c)).0 p)
        | inr p ↦
            inl (rw (fragment-push_string self (half_key own i r b) v (half_key own' i' r' c), p))
      ]

  pulled : (self : NmeaParser T) (k : Text) → fragment (pull_string self k).0 k ≡ none
  pulled self k = rw (fragment-pull_string self k k, eq_text_refl k)

  Exclusive-take_fragment :
      (checks : Bool) (self : NmeaParser T) (own : Bool) (i : ℕ) (r v : Text) (join : Text → Text)
      (b : Bool)
      → Exclusive self
      → Exclusive
          (take_fragment checks self (half_key own i r b) (half_key own i r (not b)) v join).0
  Exclusive-take_fragment checks self own i r v join b h =
      let own_key = half_key own i r b in
      let other_key = half_key own i r (not b) in
      elim (Option-cases (fragment self other_key)) [
        | inr (p, e) ↦
            rw (take_fragment_second checks self own_key other_key v p join e)
              (Exclusive-pull_string self other_key h)
        | inl e ↦ rw (take_fragment_first checks self own_key other_key v join e) (
            Exclusive-push_half (pull_string self other_key).0 own i r v b (pulled self other_key)
              (Exclusive-pull_string self other_key h))
      ]

  -- The assembly of a message keeps the store from holding both of its halves.
  pub Exclusive-assemble :
      (checks : Bool) (self : NmeaParser T) (own : Bool) (fields : VdmFields)
      → Exclusive self
      → Exclusive (assemble checks self (vdm_type own) fields).0
  Exclusive-assemble checks self own fields h =
      assemble-elim checks self own fields (λ r. Exclusive r.0) (λ o. h)
        (λ i b join half. Exclusive-take_fragment checks self own i _ _ join b h)
