-- ===== src/Gnss/Gsv/Untouched.antt =====
-- The static data of vessels, which GSV sentences leave alone.
use nmea_parser.Common.{
  ℕ, zero, suc, ◌≡◌, refl, Bool, ◌==◌, Bool-cases, Outcome-cases, inl, inr, Outcome, ok, err, panic,
  Option,
}
use nmea_parser.Text.{Text, split}
use nmea_parser.Store.{NmeaParser, push_string, pull_string}
use nmea_parser.Parser.Talker.{NavigationSystem}
use nmea_parser.Gnss.Gsv.{collect, count_found, answer, receive, numbers, handle}

module _ {S T : Type 0} (parse_f32 : Text → Option S) where
  collect-saved_vsds :
      (nav_system : NavigationSystem) (store : NmeaParser T) (key : ℕ → Text) (i n : ℕ)
      → (collect parse_f32 nav_system store key i n).0.saved_vsds ≡ store.saved_vsds
  unfolding collect pull_string
  collect-saved_vsds nav_system store key i zero = refl
  collect-saved_vsds nav_system store key i (suc n) =
      collect-saved_vsds nav_system (pull_string store (key i)).0 key (suc i) n

module _ {S T : Type 0} (F Z : Type 0) (parse_f32 : Text → Option S) where
  answer-saved_vsds :
      (nav_system : NavigationSystem) (store : NmeaParser T) (key : ℕ → Text) (msg_count : ℕ)
      (n : Outcome ℕ)
      → (answer parse_f32 {F = F} {Z = Z} nav_system store key msg_count n).0.saved_vsds
        ≡ store.saved_vsds
  unfolding answer
  answer-saved_vsds nav_system store key msg_count (ok n) =
      elim (Bool-cases (count_found store key 1 n == msg_count)) [
        | inl p ↦ rw p (collect-saved_vsds parse_f32 nav_system store key 1 n)
        | inr p ↦ rw p
      ]
  answer-saved_vsds nav_system store key msg_count (err e) = refl
  answer-saved_vsds nav_system store key msg_count panic = refl

  pub handle-saved_vsds :
      (checks : Bool) (sentence : Text) (nav_system : NavigationSystem) (store : NmeaParser T)
      → (handle parse_f32 {F = F} {Z = Z} checks sentence nav_system store).0.saved_vsds
        ≡ store.saved_vsds
  unfolding handle receive push_string
  handle-saved_vsds checks sentence nav_system store =
      elim (Outcome-cases (numbers (split b',' sentence))) [
        | inl ((count, num), e) ↦ rw (e, handle) (answer-saved_vsds nav_system _ _ count _)
        | inr (inl (e, p)) ↦ rw (p, handle)
        | inr (inr p) ↦ rw (p, handle)
      ]
