-- ===== src/Gnss/Times/Zones.antt =====
-- The time zone of a ZDA sentence.
use nmea_parser.Common.{
  ℕ, zero, suc, ◌+◌, ◌*◌, ◌^◌, ◌<◌, ◌≡◌, Bool, some, List, ℤ, pos, negsuc, pos_part, neg_part,
  sub_ℕ, ◌+ℤ◌, ◌*ℤ◌, signum, ok, arith, get_elem?,
}
use nmea_parser.Text.{Text}
use nmea_parser.Text.Integers.{parse_i32}
use nmea_parser.Gnss.Libraries.{Libraries}
use nmea_parser.Gnss.Fields.{field_or_empty}
use nmea_parser.Gnss.Times.{
  i32_result, offset_seconds, or_zero_text, offset_or_err, pick_timezone_with_fields,
}

i32_result-small :
    (checks : Bool) (x : ℤ) → pos_part x < 2 ^ 31 → neg_part x < 2 ^ 31 → i32_result checks x ≡ ok x
unfolding i32_result
i32_result-small checks x h k = ground arith

zero_mul : (x : ℤ) → pos 0 *ℤ x ≡ pos 0
unfolding ◌*ℤ◌
zero_mul x = ground arith

mul_3600 : (a : ℕ) → pos a *ℤ pos 3600 ≡ pos (a * 3600)
unfolding ◌*ℤ◌
mul_3600 a = ground arith

mul_60 : (a : ℕ) → pos a *ℤ pos 60 ≡ pos (a * 60)
unfolding ◌*ℤ◌
mul_60 a = ground arith

one_mul : (m : ℕ) → pos 1 *ℤ pos m ≡ pos m
unfolding ◌*ℤ◌
one_mul m = ground arith

add_pos : (a b : ℕ) → pos a +ℤ pos b ≡ pos (a + b)
unfolding ◌+ℤ◌
add_pos a b = ground arith

neg_3600 : (a : ℕ) → negsuc a *ℤ pos 3600 ≡ sub_ℕ 0 (suc a * 3600)
unfolding ◌*ℤ◌
neg_3600 a = ground arith

neg_60 : (a : ℕ) → sub_ℕ 0 a *ℤ pos 60 ≡ sub_ℕ 0 (a * 60)
unfolding ◌*ℤ◌
neg_60 a = ground arith

minus_one_mul : (m : ℕ) → negsuc 0 *ℤ pos m ≡ sub_ℕ 0 m
unfolding ◌*ℤ◌
minus_one_mul m = ground arith

add_neg : (a b : ℕ) → sub_ℕ 0 a +ℤ sub_ℕ 0 b ≡ sub_ℕ 0 (a + b)
unfolding ◌+ℤ◌
add_neg a b = ground arith

i32_result-pos : (checks : Bool) (a : ℕ) → a < 2 ^ 31 → i32_result checks (pos a) ≡ ok (pos a)
i32_result-pos checks a h = i32_result-small checks (pos a) h (omega arith)

i32_result-neg :
    (checks : Bool) (a : ℕ) → a < 2 ^ 31 → i32_result checks (sub_ℕ 0 a) ≡ ok (sub_ℕ 0 a)
i32_result-neg checks a h = i32_result-small checks (sub_ℕ 0 a) (ground arith) (ground arith)

-- With no hours the minutes do not count.
offset_seconds-zero :
    (checks : Bool) (minute : ℤ) → offset_seconds checks (pos 0) minute ≡ ok (pos 0)
unfolding offset_seconds
offset_seconds-zero checks minute =
    let zero_ok = i32_result-pos checks 0 (omega arith) in
    rw (
      offset_seconds,
      mul_3600 0,
      zero_ok,
      zero_mul minute,
      zero_ok,
      mul_60 0,
      zero_ok,
      add_pos 0 0,
      zero_ok,
    )

-- East and west of Greenwich.
offset_seconds-east :
    (checks : Bool) (h m : ℕ)
    → h < 1000
    → m < 1000
    → offset_seconds checks (pos (suc h)) (pos m) ≡ ok (pos (suc h * 3600 + m * 60))
unfolding offset_seconds
offset_seconds-east checks h m hh hm =
    let sign : signum (pos (suc h)) ≡ pos 1 = ground arith in
    rw (
      offset_seconds,
      mul_3600 (suc h),
      i32_result-pos checks (suc h * 3600) (omega arith),
      sign,
      one_mul m,
      i32_result-pos checks m (omega arith),
      mul_60 m,
      i32_result-pos checks (m * 60) (omega arith),
      add_pos (suc h * 3600) (m * 60),
      i32_result-pos checks (suc h * 3600 + m * 60) (omega arith),
    )

offset_seconds-west :
    (checks : Bool) (h m : ℕ)
    → h < 1000
    → m < 1000
    → offset_seconds checks (negsuc h) (pos m) ≡ ok (sub_ℕ 0 (suc h * 3600 + m * 60))
unfolding offset_seconds
offset_seconds-west checks h m hh hm =
    let sign : signum (negsuc h) ≡ negsuc 0 = ground arith in
    rw (
      offset_seconds,
      neg_3600 h,
      i32_result-neg checks (suc h * 3600) (omega arith),
      sign,
      minus_one_mul m,
      i32_result-neg checks m (omega arith),
      neg_60 m,
      i32_result-neg checks (m * 60) (omega arith),
      add_neg (suc h * 3600) (m * 60),
      i32_result-neg checks (suc h * 3600 + m * 60) (omega arith),
    )

-- The offset that the fields of a zone give, in seconds to the east.
abbrev pub zone_seconds : ℤ → ℕ → ℤ
zone_seconds (pos zero) minute = pos 0
zone_seconds (pos (suc h)) minute = pos (suc h * 3600 + minute * 60)
zone_seconds (negsuc h) minute = sub_ℕ 0 (suc h * 3600 + minute * 60)

offset_seconds-zone :
    (checks : Bool) (hour : ℤ) (minute : ℕ)
    → pos_part hour < 1000
    → neg_part hour < 1000
    → minute < 1000
    → offset_seconds checks hour (pos minute) ≡ ok (zone_seconds hour minute)
offset_seconds-zone checks (pos zero) minute h h' k = offset_seconds-zero checks (pos minute)
offset_seconds-zone checks (pos (suc n)) minute h h' k =
    offset_seconds-east checks n minute (omega arith) k
offset_seconds-zone checks (negsuc n) minute h h' k =
    offset_seconds-west checks n minute (omega arith) k

module _ {S Z : Type 0} (libs : Libraries S Z) where
  -- A time zone of fewer than 1000 hours and minutes is asked for at its hours and minutes to the
  -- east, or to the west where the hours are negative; but where the hours are 0 it is asked for at
  -- offset 0, whatever the minutes are.
  pub pick_timezone_with_fields-value :
      (checks : Bool) (fields : List Text) (hour_field minute_field : ℕ) (hour : ℤ) (minute : ℕ)
      → (pos_part hour < 1000) × (neg_part hour < 1000) × (minute < 1000)
      → parse_i32 (field_or_empty fields hour_field) ≡ some hour
      → parse_i32 (or_zero_text (get_elem? fields minute_field)) ≡ some (pos minute)
      → pick_timezone_with_fields libs checks fields hour_field minute_field
        ≡ offset_or_err (libs.east_opt (zone_seconds hour minute))
  unfolding pick_timezone_with_fields
  pick_timezone_with_fields-value checks fields hour_field minute_field hour minute h e e' =
      rw (e, e', offset_seconds-zone checks hour minute h.0 h.1 h.2)
