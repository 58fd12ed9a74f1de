-- ===== src/Gnss/Times.antt =====
-- util.rs: times, dates and time zones as text.
pub mod Total
pub mod Printed
pub mod Zones
use nmea_parser.Common.{
  ℕ, ◌+◌, ◌*◌, ◌/◌, ◌^◌, Bool, ◌&&◌, Option, none, some, List, [], ltb, leb, if◌then◌else◌, ℤ, pos,
  pos_part, neg_part, sub_ℕ, ◌+ℤ◌, ◌*ℤ◌, signum, Outcome, ok, err, panic, ◌>>=◌, or_panic,
  invalid_sentence, get_elem?,
}
use nmea_parser.Text.{Text, codes, parse_unsigned, get_range}
use nmea_parser.Text.Bytes.{get_from}
use nmea_parser.Text.Integers.{parse_i32}
use nmea_parser.Numbers.{F64, as_i32}
use nmea_parser.Chrono.{Chrono, parse_valid_utc}
use nmea_parser.Gnss.Libraries.{Libraries}
use nmea_parser.Gnss.Fields.{field_or_empty, parse_or_err}

abbrev or_empty : Option Text → Text
or_empty none = []
or_empty (some s) = s

unfoldable pub pick_s2 : Text → ℕ → Text
pick_s2 s i = or_empty (get_range s i (i + 2))

abbrev pub parse_u32 : Text → Outcome ℕ
parse_u32 = parse_or_err (parse_unsigned (2 ^ 32))

-- Day, month and year.
unfoldable pub parse_date : Text → Outcome (ℕ × ℕ × ℤ)
unfolding pick_s2
parse_date yymmdd = do
  day ← parse_u32 (pick_s2 yymmdd 0)
  month ← parse_u32 (pick_s2 yymmdd 2)
  year ← parse_or_err parse_i32 (pick_s2 yymmdd 4)
  ok (day, month, year)

unfoldable pub parse_time : Text → Outcome (ℕ × ℕ × ℕ)
unfolding pick_s2
parse_time hhmmss = do
  hour ← parse_u32 (pick_s2 hhmmss 0)
  minute ← parse_u32 (pick_s2 hhmmss 2)
  second ← parse_u32 (pick_s2 hhmmss 4)
  ok (hour, minute, second)

module _ {F : Type 0} (f64 : F64 F) where
  open f64 use {parse, mul, literal, round_u32}

  abbrev fraction : Text → Outcome ℕ
  fraction [] = ok 0
  fraction nano_str =
      parse_or_err parse nano_str >>= λ x. ok (round_u32 (mul x (literal 1000000000 0)))

  abbrev or_point_zero : Option Text → Text
  or_point_zero none = codes ".0"
  or_point_zero (some s) = s

  unfoldable pub parse_time_with_fractions : Text → Outcome (ℕ × ℕ × ℕ × ℕ)
  unfolding pick_s2 get_from
  parse_time_with_fractions hhmmss = do
    hour ← parse_u32 (pick_s2 hhmmss 0)
    minute ← parse_u32 (pick_s2 hhmmss 2)
    second ← parse_u32 (pick_s2 hhmmss 4)
    nano ← fraction (or_point_zero (get_from hhmmss 6))
    ok (hour, minute, second, nano)

-- `(year / 100) * 100` of an i32; the division rounds towards zero.
abbrev century : ℤ → ℤ
century y = sub_ℕ (pos_part y / 100 * 100) (neg_part y / 100 * 100)

module _ {T : Type 0} (chrono : Chrono T) where
  open chrono use {with_ymd_and_hms, year, month, day}

  -- `Utc.with_ymd_and_hms(2000, 1, 1, 0, 0, 0).single().unwrap()`.
  unfoldable pub start_of_2000 : Outcome T
  start_of_2000 = or_panic (with_ymd_and_hms (pos 2000) 1 1 0 0 0)

  unfoldable pub parse_hhmmss : Text → T → Outcome T
  parse_hhmmss hhmmss now = do
    (hour, minute, second) ← parse_time hhmmss
    parse_valid_utc chrono (year now) (month now) (day now) hour minute second 0

  unfoldable pub parse_yymmdd_hhmmss : Text → Text → Outcome T
  parse_yymmdd_hhmmss yymmdd hhmmss = do
    now ← or_panic (with_ymd_and_hms (pos 2020) 1 1 0 0 0)
    (day, month, y) ← parse_date yymmdd
    (hour, minute, second) ← parse_time hhmmss
    parse_valid_utc chrono (century (year now) +ℤ y) month day hour minute second 0

  unfoldable pub pick_date_with_fields : List Text → ℕ → ℕ → ℕ → ℕ → ℕ → ℕ → ℕ → Outcome T
  pick_date_with_fields split year_field month_field day_field hour minute second nanos = do
    y ← parse_or_err parse_i32 (field_or_empty split year_field)
    m ← parse_u32 (field_or_empty split month_field)
    d ← parse_u32 (field_or_empty split day_field)
    parse_valid_utc chrono y m d hour minute second nanos

module _ {F T : Type 0} (f64 : F64 F) (chrono : Chrono T) where
  open chrono use {year, month, day}

  unfoldable pub parse_hhmmss_ss : Text → T → Outcome T
  parse_hhmmss_ss hhmmss date = do
    (hour, minute, second, nano) ← parse_time_with_fractions f64 hhmmss
    parse_valid_utc chrono (year date) (month date) (day date) hour minute second nano

-- The result of an operation of i32: past its range a build with overflow checks panics, and any
-- other build keeps the low 32 bits.
unfoldable pub i32_result : Bool → ℤ → Outcome ℤ
i32_result overflow_checks x =
    if ltb (pos_part x) (2 ^ 31) && leb (neg_part x) (2 ^ 31)
    then ok x
    else if overflow_checks
    then panic
    else ok (as_i32 x)

-- `hour * 3600 + hour.signum() * minute * 60`.
unfoldable pub offset_seconds : Bool → ℤ → ℤ → Outcome ℤ
offset_seconds overflow_checks hour minute = do
  hours ← i32_result overflow_checks (hour *ℤ pos 3600)
  signed ← i32_result overflow_checks (signum hour *ℤ minute)
  minutes ← i32_result overflow_checks (signed *ℤ pos 60)
  i32_result overflow_checks (hours +ℤ minutes)

abbrev pub or_zero_text : Option Text → Text
or_zero_text none = codes "0"
or_zero_text (some s) = s

abbrev pub offset_or_err : {Z : Type 0} → Option Z → Outcome Z
offset_or_err none = err invalid_sentence
offset_or_err (some z) = ok z

module _ {S Z : Type 0} (libs : Libraries S Z) (overflow_checks : Bool) where
  open libs use {east_opt}

  unfoldable pub pick_timezone_with_fields : List Text → ℕ → ℕ → Outcome Z
  pick_timezone_with_fields split hour_field minute_field = do
    hour ← parse_or_err parse_i32 (field_or_empty split hour_field)
    minute ← parse_or_err parse_i32 (or_zero_text (get_elem? split minute_field))
    seconds ← offset_seconds overflow_checks hour minute
    offset_or_err (east_opt seconds)
