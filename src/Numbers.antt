-- ===== src/Numbers.antt =====
-- The operations of the machine's floating-point numbers that the crate uses, as a parameter:
-- nothing is assumed of them. `literal m k` is the f64 that Rust reads from m / 10 ^ k,
-- and `round_u32 x` is `x.round() as u32`.
use nmea_parser.Common.{
  ℕ, ◌-◌, ◌%◌, ◌^◌, ◌≤◌, ◌<◌, ◌≡◌, ℤ, pos, negsuc, sub_ℕ, pos_part, neg_part, ltb, if◌then◌else◌,
  arith, Option,
}
use nmea_parser.Text.{Text}

pub record F64 (F : Type 0) : Type 0 where
  pub of_ℤ : ℤ → F
  pub literal : ℕ → ℕ → F
  pub add : F → F → F
  pub mul : F → F → F
  pub div : F → F → F
  pub neg : F → F
  pub powi : F → ℕ → F
  pub parse : Text → Option F
  pub round_u32 : F → ℕ

-- `x as i32` of an i64: its low 32 bits in two's complement.
abbrev low_32 : ℤ → ℕ
low_32 (pos n) = n % 2 ^ 32
low_32 (negsuc n) = 2 ^ 32 - 1 - n % 2 ^ 32

unfoldable pub as_i32 : ℤ → ℤ
as_i32 x = let low = low_32 x in if ltb low (2 ^ 31) then pos low else sub_ℕ low (2 ^ 32)

-- An integer in the range of an i32 is kept.
pub as_i32_lem : (x : ℤ) → pos_part x < 2 ^ 31 → neg_part x ≤ 2 ^ 31 → as_i32 x ≡ x
unfolding as_i32
as_i32_lem (pos n) h k = ground arith
as_i32_lem (negsuc n) h k = ground arith
