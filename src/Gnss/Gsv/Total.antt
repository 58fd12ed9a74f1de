-- ===== src/Gnss/Gsv/Total.antt =====
-- A GSV sentence never panics in a build without overflow checks.
use nmea_parser.Common.{
  ◌==◌, Outcome-cases, ℕ, refl, ◌≢◌, false, Option, List, Outcome, ok, err, panic, arith,
  Bool-cases, inl, inr,
}
use nmea_parser.Text.{split, Text}
use nmea_parser.Parser.Talker.{NavigationSystem}
use nmea_parser.Store.{NmeaParser}
use nmea_parser.Gnss.Gsv
use nmea_parser.Gnss.Gsv.{numbers, answer, receive, rounds, count_found}
use nmea_parser.Gnss.Steps.{steps}

numbers-ne_panic : (fields : List Text) → numbers fields ≢ panic
unfolding numbers
numbers-ne_panic fields = search steps depth 20

rounds-ne_panic : (msg_count : ℕ) → rounds false msg_count ≢ panic
unfolding rounds
rounds-ne_panic msg_count = ground arith

-- The handler of GSV, in a build without overflow checks.
module _ (F Z : Type 0) {S T : Type 0} (parse_f32 : Text → Option S) (s : Text)
    (n : NavigationSystem) (store : NmeaParser T) where
  answer-ne_panic :
      (held : NmeaParser T) (key : ℕ → Text) (msg_count : ℕ) (o : Outcome ℕ)
      → o ≢ panic
      → (answer parse_f32 {F = F} {Z = Z} n held key msg_count o).1 ≢ panic
  unfolding answer
  answer-ne_panic held key msg_count (ok m) h =
      elim (Bool-cases (count_found held key 1 m == msg_count)) [
        | inl p ↦ rw p (λ e. cc)
        | inr p ↦ rw p (λ e. cc)
      ]
  answer-ne_panic held key msg_count (err e) h = λ p. cc
  answer-ne_panic held key msg_count panic h = λ p. h refl

  pub gsv-ne_panic : (Gsv.handle parse_f32 {F = F} {Z = Z} false s n store).1 ≢ panic
  unfolding Gsv.handle receive
  gsv-ne_panic = elim (Outcome-cases (numbers (split b',' s))) [
    | inl ((count, num), e) ↦
        rw (e, Gsv.handle) (answer-ne_panic _ _ count _ (rounds-ne_panic count))
    | inr (inl (e, p)) ↦ rw (p, Gsv.handle) (λ q. cc)
    | inr (inr p) ↦ absurd (numbers-ne_panic (split b',' s) p)
  ]
