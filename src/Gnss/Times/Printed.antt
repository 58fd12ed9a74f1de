-- ===== src/Gnss/Times/Printed.antt =====
-- Times and dates that were printed with two digits for each number.
use nmea_parser.Common.{
  ℕ, suc, ◌+◌, ◌-◌, ◌*◌, ◌/◌, ◌%◌, ◌<◌, ◌≡◌, refl, ap, some, [], ◌∷◌, ◌++◌, pos, ◌+ℤ◌, ℤ, Option,
  none, ok, arith,
}
use nmea_parser.Text.{Text, split_at, parse_unsigned, digits_value}
use nmea_parser.Text.Integers.{parse_i32}
use nmea_parser.Text.Slices.{split_at-zero, split_at-ascii, get_range-front, get_range-behind}
use nmea_parser.Chrono.{Chrono, parse_valid_utc}
use nmea_parser.Gnss.Fields.{to_option}
use nmea_parser.Gnss.Times.{
  pick_s2, parse_u32, parse_date, parse_time, parse_hhmmss, parse_yymmdd_hhmmss,
}

-- A number below 100 in two digits.
abbrev pub two_digits : ℕ → Text
two_digits n = (48 + n / 10) ∷ (48 + n % 10) ∷ []

abbrev pub three : ℕ → ℕ → ℕ → Text → Text
three a b c rest = two_digits a ++ (two_digits b ++ (two_digits c ++ rest))

digit-small : (n : ℕ) → n < 100 → (48 + n / 10 < 0x80) × (48 + n % 10 < 0x80)
digit-small n h = (omega arith, omega arith)

split_at-two_digits :
    (n : ℕ) (k : ℕ) (t a b : Text)
    → n < 100
    → split_at t k ≡ some (a, b)
    → split_at (two_digits n ++ t) (suc (suc k)) ≡ some (two_digits n ++ a, b)
split_at-two_digits n k t a b h e =
    let (p, q) = digit-small n h in
    split_at-ascii (48 + n / 10) (suc k) ((48 + n % 10) ∷ t) ((48 + n % 10) ∷ a) b p
      (split_at-ascii (48 + n % 10) k t a b q e)

digits_value-two_digits : (n : ℕ) → n < 100 → digits_value (two_digits n) 0 ≡ some n
unfolding digits_value
digits_value-two_digits n h = ground (arith, value n)
  where
    value : (n : ℕ) → (0 * 10 + (48 + n / 10 - 48)) * 10 + (48 + n % 10 - 48) ≡ n
    value n = omega arith

parse_u32-two_digits : (n : ℕ) → n < 100 → parse_u32 (two_digits n) ≡ ok n
parse_u32-two_digits n h = unfold parse_unsigned in ground (arith, digits_value-two_digits n h)

parse_i32-two_digits : (n : ℕ) → n < 100 → parse_i32 (two_digits n) ≡ some (pos n)
unfolding parse_i32
parse_i32-two_digits n h = ground (arith, digits_value-two_digits n h)

-- The three pairs of digits.
module _ (a b c : ℕ) (rest : Text) (ha : a < 100) (hb : b < 100) (hc : c < 100) where
  behind_two :
      split_at (three a b c rest) 2 ≡ some (two_digits a, two_digits b ++ (two_digits c ++ rest))
  behind_two =
      split_at-two_digits a 0 _ [] _ ha (split_at-zero (two_digits b ++ (two_digits c ++ rest)))

  behind_four :
      split_at (three a b c rest) 4 ≡ some (two_digits a ++ two_digits b, two_digits c ++ rest)
  behind_four =
      split_at-two_digits a 2 _ (two_digits b) _ ha
        (split_at-two_digits b 0 _ [] _ hb (split_at-zero (two_digits c ++ rest)))

  pick_s2-three_0 : pick_s2 (three a b c rest) 0 ≡ two_digits a
  unfolding pick_s2
  pick_s2-three_0 = rw (get_range-front (three a b c rest) 2 _ _ behind_two)

  pick_s2-three_2 : pick_s2 (three a b c rest) 2 ≡ two_digits b
  unfolding pick_s2
  pick_s2-three_2 = rw (
      get_range-behind (three a b c rest) 2 4 2 0 _ _ _ _ refl behind_two
        (split_at-two_digits b 0 _ [] _ hb (split_at-zero (two_digits c ++ rest))))

  pick_s2-three_4 : pick_s2 (three a b c rest) 4 ≡ two_digits c
  unfolding pick_s2
  pick_s2-three_4 = rw (
      get_range-behind (three a b c rest) 4 6 2 0 _ _ _ _ refl behind_four
        (split_at-two_digits c 0 _ [] _ hc (split_at-zero rest)))

  parse_time-three : parse_time (three a b c rest) ≡ ok (a, b, c)
  unfolding parse_time
  parse_time-three = rw (
    pick_s2-three_0,
    parse_u32-two_digits a ha,
    pick_s2-three_2,
    parse_u32-two_digits b hb,
    pick_s2-three_4,
    parse_u32-two_digits c hc,
  )

  parse_date-three : parse_date (three a b c rest) ≡ ok (a, b, pos c)
  unfolding parse_date
  parse_date-three = rw (
    pick_s2-three_0,
    parse_u32-two_digits a ha,
    pick_s2-three_2,
    parse_u32-two_digits b hb,
    pick_s2-three_4,
    parse_i32-two_digits c hc,
  )

add_years : (y : ℕ) → pos 2000 +ℤ pos y ≡ pos (2000 + y)
unfolding ◌+ℤ◌
add_years y = ground arith

module _ {T : Type 0} (chrono : Chrono T) where
  pub parse_valid_utc-some :
      (year : ℤ) (mo d h m s : ℕ) (t : T)
      → chrono.ymd_and_hms_nano year mo d h m s 0 ≡ some t
      → parse_valid_utc chrono year mo d h m s 0 ≡ ok t
  unfolding parse_valid_utc
  parse_valid_utc-some year mo d h m s t e = rw (parse_valid_utc, e)

  -- `parse_valid_utc(...).ok()`.
  pub parse_valid_utc-option :
      (year : ℤ) (mo d h m s : ℕ) (o : Option T)
      → chrono.ymd_and_hms_nano year mo d h m s 0 ≡ o
      → to_option (parse_valid_utc chrono year mo d h m s 0) ≡ ok o
  unfolding parse_valid_utc
  parse_valid_utc-option year mo d h m s (some t) e = rw (parse_valid_utc, e)
  parse_valid_utc-option year mo d h m s none e = rw (parse_valid_utc, e)

  -- A time of the day that is printed as HHMMSS, whatever stands behind it, is read as that time at
  -- the day that is given.
  pub parse_hhmmss-three :
      (h m s : ℕ) (rest : Text) (now : T)
      → h < 100
      → m < 100
      → s < 100
      → parse_hhmmss chrono (three h m s rest) now
        ≡ parse_valid_utc chrono (chrono.year now) (chrono.month now) (chrono.day now) h m s 0
  unfolding parse_hhmmss
  parse_hhmmss-three h m s rest now hh hm hs = rw (parse_time-three h m s rest hh hm hs)

  -- Where the first second of 2020 exists and is in 2020: a date that is printed as day, month and
  -- the last two digits of its year, with a time that is printed as HHMMSS, whatever stands behind
  -- them, is read as that time of that day in the years from 2000 to 2099.
  pub parse_yymmdd_hhmmss-three :
      (now : T)
      → chrono.with_ymd_and_hms (pos 2020) 1 1 0 0 0 ≡ some now
      → chrono.year now ≡ pos 2020
      → (d mo y h m s : ℕ) (rest rest' : Text) → (d < 100) × (mo < 100) × (y < 100)
      → (h < 100) × (m < 100) × (s < 100)
      → parse_yymmdd_hhmmss chrono (three d mo y rest) (three h m s rest')
        ≡ parse_valid_utc chrono (pos (2000 + y)) mo d h m s 0
  unfolding parse_yymmdd_hhmmss
  parse_yymmdd_hhmmss-three now clock is_2020 d mo y h m s rest rest' hd hh =
      rw
        (
          clock,
          parse_date-three d mo y rest hd.0 hd.1 hd.2,
          parse_time-three h m s rest' hh.0 hh.1 hh.2,
          is_2020,
        )
        (ap (λ x. parse_valid_utc chrono x mo d h m s 0) (add_years y))
