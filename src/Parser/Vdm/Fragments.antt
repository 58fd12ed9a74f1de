-- ===== src/Parser/Vdm/Fragments.antt =====
-- The two halves of a message, in either order, and what they leave in the store.
use nmea_parser.Common.{
  ℕ, ◌≡◌, ◌≢◌, refl, false, sym, ◌∙◌, Bool, Option, none, some, ◌++◌, ok, if◌then◌else◌, Bool-cases,
  inl, inr,
}
use nmea_parser.Text.{Text, eq_text}
use nmea_parser.Text.Laws.{eq_text_iff, eq_text_refl}
use nmea_parser.Bits.{parse_payload}
use nmea_parser.Store.{NmeaParser, lookup, push_string, pull_string}
use nmea_parser.Store.Laws.{lookup-insert, lookup-remove}
use nmea_parser.Parser.Vdm.Untouched.{assemble-saved_vsds}
use nmea_parser.Parser.Vdm.{
  VdmFields, make_fragment_key, channel_or_empty, to_some, take_fragment, assemble,
}

-- The fragment that the store holds under a key.
abbrev pub fragment : {T : Type 0} → NmeaParser T → Text → Option Text
fragment self key = lookup eq_text key self.saved_fragments

eq_text-ne : (k j : Text) → k ≢ j → eq_text k j ≡ false
eq_text-ne k j ne = elim (Bool-cases (eq_text k j)) [
  | inl p ↦ absurd (ne ((eq_text_iff k j).0 p))
  | inr p ↦ p
]

module _ {T : Type 0} where
  -- After `push_string` the store holds the value under its key, and every other key as before.
  pub fragment-push_string :
      (self : NmeaParser T) (k v j : Text)
      → fragment (push_string self k v) j ≡ (if eq_text k j then some v else fragment self j)
  unfolding push_string
  fragment-push_string self k v j = lookup-insert eq_text eq_text_iff self.saved_fragments k j v

  -- After `pull_string` the store holds nothing under the key, and every other key as before.
  pub fragment-pull_string :
      (self : NmeaParser T) (k j : Text)
      → fragment (pull_string self k).0 j ≡ (if eq_text k j then none else fragment self j)
  unfolding pull_string
  fragment-pull_string self k j = lookup-remove eq_text eq_text_iff self.saved_fragments k j

  -- Another key is as before.
  pub fragment-push_other :
      (self : NmeaParser T) (k v j : Text)
      → k ≢ j
      → fragment (push_string self k v) j ≡ fragment self j
  fragment-push_other self k v j ne = rw (fragment-push_string self k v j, eq_text-ne k j ne)

  pub fragment-pull_other :
      (self : NmeaParser T) (k j : Text)
      → k ≢ j
      → fragment (pull_string self k).0 j ≡ fragment self j
  fragment-pull_other self k j ne = rw (fragment-pull_string self k j, eq_text-ne k j ne)

  -- The first half to come is kept under its key.
  pub take_fragment_first :
      (checks : Bool) (self : NmeaParser T) (own other payload : Text) (join : Text → Text)
      → fragment self other ≡ none
      → take_fragment checks self own other payload join
        ≡ (push_string (pull_string self other).0 own payload, ok none)
  unfolding take_fragment pull_string
  take_fragment_first checks self own other payload join e = rw (e, take_fragment)

  -- The second half finds it and takes it out.
  pub take_fragment_second :
      (checks : Bool) (self : NmeaParser T) (own other payload p : Text) (join : Text → Text)
      → fragment self other ≡ some p
      → take_fragment checks self own other payload join
        ≡ ((pull_string self other).0, to_some (parse_payload checks (join p)))
  unfolding take_fragment pull_string
  take_fragment_second checks self own other payload p join e = rw (e, take_fragment)

  after_both :
      (self : NmeaParser T) (own other first j : Text)
      → fragment self own ≡ none
      → fragment self other ≡ none
      → fragment (pull_string (push_string (pull_string self other).0 own first) own).0 j
        ≡ fragment self j
  after_both self own other first j e e' =
      rw
        (
          fragment-pull_string (push_string (pull_string self other).0 own first) own j,
          fragment-push_string (pull_string self other).0 own first j,
          fragment-pull_string self other j,
        )
        (elim (Bool-cases (eq_text own j)) [
          | inl p ↦ rw p (rw (← (eq_text_iff own j).0 p) (sym e))
          | inr p ↦ rw p (elim (Bool-cases (eq_text other j)) [
            | inl q ↦ rw q (rw (← (eq_text_iff other j).0 q) (sym e'))
            | inr q ↦ rw q
          ])
        ])

  -- Both halves through the store.
  take_both :
      (checks : Bool) (self : NmeaParser T) (own other first second : Text) (f g : Text → Text)
      → fragment self own ≡ none
      → fragment self other ≡ none
      → let once = take_fragment checks self own other first f in
        let twice = take_fragment checks once.0 other own second g in
        (once.1 ≡ ok none)
        × (twice.1 ≡ to_some (parse_payload checks (g first)))
        × ((j : Text) → fragment twice.0 j ≡ fragment self j)
  take_both checks self own other first second f g e e' =
      let s1 = push_string (pull_string self other).0 own first in
      let held : fragment s1 own ≡ some first =
        rw (fragment-push_string (pull_string self other).0 own first own, eq_text_refl own) in
      rw
        (
          take_fragment_first checks self own other first f e',
          take_fragment_second checks s1 other own second first g held,
        )
        (refl, refl, λ j. after_both self own other first j e e')

-- The two sentences of one message.
abbrev pub half : ℕ → Option Text → ℕ → Text → VdmFields
half msg_id channel number payload = record {
  fragment_count = 2;
  fragment_number = number;
  message_id = some msg_id;
  radio_channel_code = channel;
  payload_string = payload;
}

module _ {T : Type 0} (checks : Bool) (self : NmeaParser T) (s : Text) (i : ℕ) where
  pub assemble-half_one :
      (channel : Option Text) (p : Text)
      → assemble checks self s (half i channel 1 p)
        ≡ take_fragment checks self
            (make_fragment_key s i 2 1 (channel_or_empty channel))
            (make_fragment_key s i 2 2 (channel_or_empty channel))
            p
            (λ q. p ++ q)
  unfolding assemble
  assemble-half_one channel p = refl

  pub assemble-half_two :
      (channel : Option Text) (p : Text)
      → assemble checks self s (half i channel 2 p)
        ≡ take_fragment checks self
            (make_fragment_key s i 2 2 (channel_or_empty channel))
            (make_fragment_key s i 2 1 (channel_or_empty channel))
            p
            (λ q. q ++ p)
  unfolding assemble
  assemble-half_two channel p = refl

module _ {T : Type 0} (checks : Bool) (self : NmeaParser T) (s : Text) (msg_id : ℕ)
    (channel : Option Text) (p1 p2 : Text)
    (fresh1 : fragment self (make_fragment_key s msg_id 2 1 (channel_or_empty channel)) ≡ none)
    (fresh2 : fragment self (make_fragment_key s msg_id 2 2 (channel_or_empty channel))
      ≡ none) where
  -- Where the store holds neither half of a message, its two sentences give, in either order, first
  -- no message and then the bits of the joined payload, and then the store holds under every key the
  -- fragment that it held before, and the same static data.
  pub assemble-either_order :
      let first = assemble checks self s (half msg_id channel 1 p1) in
      let then_second = assemble checks first.0 s (half msg_id channel 2 p2) in
      let second = assemble checks self s (half msg_id channel 2 p2) in
      let then_first = assemble checks second.0 s (half msg_id channel 1 p1) in
      (first.1 ≡ ok none)
      × (then_second.1 ≡ to_some (parse_payload checks (p1 ++ p2)))
      × ((j : Text) → fragment then_second.0 j ≡ fragment self j)
      × (then_second.0.saved_vsds ≡ self.saved_vsds)
      × (second.1 ≡ ok none)
      × (then_first.1 ≡ to_some (parse_payload checks (p1 ++ p2)))
      × ((j : Text) → fragment then_first.0 j ≡ fragment self j)
      × (then_first.0.saved_vsds ≡ self.saved_vsds)
  assemble-either_order =
      let c = channel_or_empty channel in
      let key1 = make_fragment_key s msg_id 2 1 c in
      let key2 = make_fragment_key s msg_id 2 2 c in
      let (a, b, d) =
        take_both checks self key1 key2 p1 p2 (λ q. p1 ++ q) (λ q. q ++ p2) fresh1 fresh2 in
      let (a', b', d') =
        take_both checks self key2 key1 p2 p1 (λ q. q ++ p2) (λ q. p1 ++ q) fresh2 fresh1 in
      (
        rw assemble-half_one a,
        rw (assemble-half_one, assemble-half_two) b,
        rw (assemble-half_one, assemble-half_two) d,
        static 1 2 p1 p2,
        rw assemble-half_two a',
        rw (assemble-half_two, assemble-half_one) b',
        rw (assemble-half_two, assemble-half_one) d',
        static 2 1 p2 p1,
      )
    where
      static :
          (m n : ℕ) (p q : Text)
          → (assemble checks
              (assemble checks self s (half msg_id channel m p)).0
              s
              (half msg_id channel n q)).0.saved_vsds
            ≡ self.saved_vsds
      static m n p q =
          assemble-saved_vsds checks (assemble checks self s (half msg_id channel m p)).0 s
            (half msg_id channel n q)
          ∙ assemble-saved_vsds checks self s (half msg_id channel m p)
