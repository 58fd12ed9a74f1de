-- ===== src/Gnss/Libraries.antt =====
-- What the GNSS handlers call of libraries, as a parameter: nothing is assumed of it. `S` stands for
-- f32 and `Z` for chrono's `FixedOffset`.
use nmea_parser.Common.{ℕ, Option, ℤ}
use nmea_parser.Text.{Text}

-- `s.parse::<f32>()`, num_traits' `from_str_radix` at an unsigned integer of the given width, and
-- `FixedOffset::east_opt`.
pub record Libraries (S Z : Type 0) : Type 0 where
  pub parse_f32 : Text → Option S
  pub from_str_radix : ℕ → Text → ℕ → Option ℕ
  pub east_opt : ℤ → Option Z
