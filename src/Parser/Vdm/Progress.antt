-- ===== src/Parser/Vdm/Progress.antt =====
-- A message of two sentences is answered, whatever the store holds.
use nmea_parser.Common.{ℕ, ◌≡◌, ◌⊎◌, inl, inr, false, Option, none, some, ◌++◌, Option-cases, ok}
use nmea_parser.Text.{Text}
use nmea_parser.Text.Laws.{eq_text_refl}
use nmea_parser.Bits.{Bits}
use nmea_parser.Bits.Armor.{parse_payload_unchecked}
use nmea_parser.Store.{NmeaParser, push_string, pull_string}
use nmea_parser.Parser.Vdm.{make_fragment_key, channel_or_empty, take_fragment, assemble}
use nmea_parser.Parser.Vdm.Fragments.{
  fragment, fragment-push_string, take_fragment_first, take_fragment_second, half,
  assemble-half_one, assemble-half_two,
}

module _ {T : Type 0} (self : NmeaParser T) where
  take_progress :
      (own other first second : Text) (f g : Text → Text)
      → let once = take_fragment false self own other first f in
        let twice = take_fragment false once.0 other own second g in
        (bv : Bits) × ((once.1 ≡ ok (some bv)) ⊎ ((once.1 ≡ ok none) × (twice.1 ≡ ok (some bv))))
  take_progress own other first second f g = elim (Option-cases (fragment self other)) [
    | inr (p, e) ↦
        let (bv, eb, _) = parse_payload_unchecked (f p) in
        (bv, inl (rw (take_fragment_second false self own other first p f e, eb)))
    | inl e ↦
        let (bv, eb, _) = parse_payload_unchecked (g first) in
        let kept : fragment (push_string (pull_string self other).0 own first) own ≡ some first =
          rw (fragment-push_string (pull_string self other).0 own first own, eq_text_refl own) in
        (
          bv,
          inr (
            rw (take_fragment_first false self own other first f e),
            rw (
              take_fragment_first false self own other first f e,
              take_fragment_second false (push_string (pull_string self other).0 own first) other
                  own second first g kept,
              eb,
            ),
          ),
        )
  ]

  -- In a build without overflow checks, whatever the store holds, of the two sentences of a message
  -- one is answered by bits, in either order: the first one, or else the second one.
  pub assemble-progress :
      (s : Text) (msg_id : ℕ) (channel : Option Text) (p1 p2 : Text)
      → let first = assemble false self s (half msg_id channel 1 p1) in
        let then_second = assemble false first.0 s (half msg_id channel 2 p2) in
        let second = assemble false self s (half msg_id channel 2 p2) in
        let then_first = assemble false second.0 s (half msg_id channel 1 p1) in
        ((bv : Bits) × ((first.1 ≡ ok (some bv))
            ⊎ ((first.1 ≡ ok none) × (then_second.1 ≡ ok (some bv)))))
        × ((bv : Bits) × ((second.1 ≡ ok (some bv))
              ⊎ ((second.1 ≡ ok none) × (then_first.1 ≡ ok (some bv)))))
  assemble-progress s msg_id channel p1 p2 =
      let c = channel_or_empty channel in
      let key1 = make_fragment_key s msg_id 2 1 c in
      let key2 = make_fragment_key s msg_id 2 2 c in
      simp (assemble-half_one, assemble-half_two)
        (
          take_progress key1 key2 p1 p2 (λ q. p1 ++ q) (λ q. q ++ p2),
          take_progress key2 key1 p2 p1 (λ q. q ++ p2) (λ q. p1 ++ q),
        )
