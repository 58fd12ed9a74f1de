-- ===== src/Chrono.antt =====
-- The operations of the chrono library that the crate uses, as a parameter: nothing is assumed of
-- them. `T` stands for `DateTime<Utc>`.
use nmea_parser.Common.{ℕ, Bool, Option, none, some, ℤ, Outcome, ok, err, invalid_sentence}

-- A `DateTime<Utc>` by year, month, day, hour, minute and second; the first with nanoseconds
-- (`ymd_opt` and `and_hms_nano_opt`), the second without (`with_ymd_and_hms`). Then the fields of a
-- date, `t - Duration::days(n)`, and the order `<=`.
pub record Chrono (T : Type 0) : Type 0 where
  pub ymd_and_hms_nano : ℤ → ℕ → ℕ → ℕ → ℕ → ℕ → ℕ → Option T
  pub with_ymd_and_hms : ℤ → ℕ → ℕ → ℕ → ℕ → ℕ → Option T
  pub year : T → ℤ
  pub month : T → ℕ
  pub day : T → ℕ
  pub sub_days : T → ℕ → T
  pub leb_time : T → T → Bool

module _ {T : Type 0} (chrono : Chrono T) where
  open chrono use {ymd_and_hms_nano}

  -- util.rs: `parse_valid_utc` and `parse_ymdhs`.
  unfoldable pub parse_valid_utc : ℤ → ℕ → ℕ → ℕ → ℕ → ℕ → ℕ → Outcome T
  parse_valid_utc year month day hour min sec nano =
      elim (ymd_and_hms_nano year month day hour min sec nano) [
        | some valid_utc ↦ ok valid_utc
        | none ↦ err invalid_sentence
      ]

  unfoldable pub parse_ymdhs : ℤ → ℕ → ℕ → ℕ → ℕ → ℕ → Outcome T
  unfolding parse_valid_utc
  parse_ymdhs year month day hour min sec = parse_valid_utc year month day hour min sec 0
