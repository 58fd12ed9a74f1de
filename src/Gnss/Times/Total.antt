-- ===== src/Gnss/Times/Total.antt =====
-- The times, dates and time zones that never panic.
use nmea_parser.Common.{
  ℕ, ◌≡◌, ◌≢◌, Bool, false, Option, none, some, List, ℤ, pos, Outcome, ok, err, panic, ◌>>=◌,
  bind-ne_panic, ok-ne_panic, safe_steps, ok_or, if◌then◌else◌, arith, ParseError, invalid_sentence,
}
use nmea_parser.Text.{Text}
use nmea_parser.Numbers.{F64}
use nmea_parser.Chrono.{Chrono}
use nmea_parser.Ais.Vdm.Total.{parse_valid_utc-ne_panic}
use nmea_parser.Gnss.Libraries.{Libraries}
use nmea_parser.Gnss.Fields.{to_option, parse_or_err}
use nmea_parser.Gnss.Times.{
  start_of_2000, parse_date, parse_time, fraction, parse_time_with_fractions, parse_hhmmss,
  parse_yymmdd_hhmmss, parse_hhmmss_ss, pick_date_with_fields, i32_result, offset_seconds,
  offset_or_err, pick_timezone_with_fields,
}

pub parse_or_err-ne_panic :
    {A : Type 0} (parse : Text → Option A) (s : Text) → parse_or_err parse s ≢ panic
parse_or_err-ne_panic parse s = ground arith

pub to_option-ne_panic : {A : Type 0} (o : Outcome A) → o ≢ panic → to_option o ≢ panic
to_option-ne_panic o h = ground arith

pub ruleset outcomes = (safe_steps, parse_or_err-ne_panic, to_option-ne_panic)

parse_date-ne_panic : (t : Text) → parse_date t ≢ panic
unfolding parse_date
parse_date-ne_panic t = search outcomes depth 20

parse_time-ne_panic : (t : Text) → parse_time t ≢ panic
unfolding parse_time
parse_time-ne_panic t = search outcomes depth 20

module _ {F : Type 0} (f64 : F64 F) where
  fraction-ne_panic : (t : Text) → fraction f64 t ≢ panic
  fraction-ne_panic t = ground arith

  parse_time_with_fractions-ne_panic : (t : Text) → parse_time_with_fractions f64 t ≢ panic
  unfolding parse_time_with_fractions
  parse_time_with_fractions-ne_panic t = search (outcomes, fraction-ne_panic) depth 20

module _ {T : Type 0} (chrono : Chrono T) where
  pub start_of_2000-ne_panic :
      (start : T)
      → chrono.with_ymd_and_hms (pos 2000) 1 1 0 0 0 ≡ some start
      → start_of_2000 chrono ≢ panic
  unfolding start_of_2000
  start_of_2000-ne_panic start clock = rw clock (ok-ne_panic start)

  pub parse_hhmmss-ne_panic : (t : Text) (now : T) → parse_hhmmss chrono t now ≢ panic
  unfolding parse_hhmmss
  parse_hhmmss-ne_panic t now =
      bind-ne_panic (parse_time t) _ (parse_time-ne_panic t)
        (λ (hour, minute, second). parse_valid_utc-ne_panic chrono _ _ _ hour minute second 0)

  pub parse_yymmdd_hhmmss-ne_panic :
      (now : T)
      → chrono.with_ymd_and_hms (pos 2020) 1 1 0 0 0 ≡ some now
      → (d t : Text) → parse_yymmdd_hhmmss chrono d t ≢ panic
  unfolding parse_yymmdd_hhmmss
  parse_yymmdd_hhmmss-ne_panic now clock d t = rw clock (
      bind-ne_panic (parse_date d) _ (parse_date-ne_panic d) (λ (day, month, y).
        bind-ne_panic (parse_time t) _ (parse_time-ne_panic t) (λ (hour, minute, second).
          parse_valid_utc-ne_panic chrono _ month day hour minute second 0)))

  pub pick_date_with_fields-ne_panic :
      (fields : List Text) (y m d hour minute second nanos : ℕ)
      → pick_date_with_fields chrono fields y m d hour minute second nanos ≢ panic
  unfolding pick_date_with_fields
  pick_date_with_fields-ne_panic fields y m d hour minute second nanos =
      search (outcomes, parse_valid_utc-ne_panic) depth 20

  pub parse_hhmmss_ss-ne_panic :
      {F : Type 0} (f64 : F64 F) (t : Text) (date : T) → parse_hhmmss_ss f64 chrono t date ≢ panic
  unfolding parse_hhmmss_ss
  parse_hhmmss_ss-ne_panic f64 t date =
      bind-ne_panic (parse_time_with_fractions f64 t) _ (parse_time_with_fractions-ne_panic f64 t)
        (λ (hour, minute, second, nano).
          parse_valid_utc-ne_panic chrono _ _ _ hour minute second nano)

i32_result-ne_panic : (x : ℤ) → i32_result false x ≢ panic
unfolding i32_result
i32_result-ne_panic x = ground arith

offset_seconds-ne_panic : (hour minute : ℤ) → offset_seconds false hour minute ≢ panic
unfolding offset_seconds
offset_seconds-ne_panic hour minute = search (outcomes, i32_result-ne_panic) depth 20

pub pick_timezone_with_fields-ne_panic :
    {S Z : Type 0} (libs : Libraries S Z) (fields : List Text) (h m : ℕ)
    → pick_timezone_with_fields libs false fields h m ≢ panic
unfolding pick_timezone_with_fields
pick_timezone_with_fields-ne_panic libs fields h m =
    search (outcomes, offset_seconds-ne_panic, known) depth 20
  where
    known : {Z : Type 0} (o : Option Z) → offset_or_err o ≢ panic
    known o = ground arith
