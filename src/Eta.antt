-- ===== src/Eta.antt =====
-- util.rs: the estimated time of arrival.
pub mod NotAvailable
use nmea_parser.Common.{
  ℕ, suc, ◌+◌, ◌%◌, ◌^◌, Bool, ◌&&◌, ◌==◌, if◌then◌else◌, Option, none, some, ℤ, pos, negsuc, sub_ℕ,
  Outcome, ok, err, panic, ◌>>=◌, or_panic,
}
use nmea_parser.Bits.{Bits, pick_u64}
use nmea_parser.Chrono.{Chrono, parse_valid_utc}
use nmea_parser.Ais.Fields.{pick_u32}

-- `now.year() + 1`.
abbrev next_year : ℤ → ℤ
next_year (pos y) = pos (suc y)
next_year (negsuc y) = sub_ℕ 0 y

module _ {T : Type 0} (chrono : Chrono T) where
  open chrono use {with_ymd_and_hms, year, month, day, sub_days, leb_time}

  -- The choice between this year's date and the next year's.
  unfoldable pub choose_eta : T → Outcome T → Outcome T → Outcome (Option T)
  choose_eta now (ok this) (ok next) =
      if leb_time (sub_days now 180) this then ok (some this) else ok (some next)
  choose_eta now (ok this) (err e) = ok (some this)
  choose_eta now (err e) (ok next) = ok (some next)
  choose_eta now (err e) (err e') = err e
  choose_eta now (ok this) panic = panic
  choose_eta now (err e) panic = panic
  choose_eta now panic next = panic

  -- The fields are completed from `now`, except 24:xx, which is the end of the day.
  unfoldable pub complete_eta : T → ℕ → ℕ → ℕ → ℕ → Outcome (Option T)
  complete_eta now m d h min =
      let month' = if m == 0 then month now else m in
      let day' = if d == 0 then day now else d in
      let hour' = if h == 24 then 23 else h in
      let given = if h == 24 then 59 else min in
      let minute' = if given == 60 then 59 else given in
      choose_eta now (parse_valid_utc chrono (year now) month' day' hour' minute' 30 0)
        (parse_valid_utc chrono (next_year (year now)) month' day' hour' minute' 30 0)

  unfoldable pub pick_eta_with_now : Bits → ℕ → T → Outcome (Option T)
  pick_eta_with_now bv index now =
      let m = pick_u32 bv index 4 in
      let d = pick_u32 bv (index + 4) 5 in
      let h = pick_u32 bv (index + 4 + 5) 5 in
      let min = pick_u32 bv (index + 4 + 5 + 5) 6 in
      if m == 0 && d == 0 && h == 24 && min == 60 then ok none else complete_eta now m d h min

  -- The present is always taken to be the start of 2000.
  unfoldable pub pick_eta : Bits → ℕ → Outcome (Option T)
  pick_eta bv index = do
    now ← or_panic (with_ymd_and_hms (pos 2000) 1 1 0 0 0)
    pick_eta_with_now bv index now
