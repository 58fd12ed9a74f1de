-- ===== src/Gnss/Alm.antt =====
-- gnss/alm.rs: almanac data.
use nmea_parser.Common.{ℕ, Option, none, some, ◌%◌, ◌^◌, Outcome, ok, ◌>>=◌}
use nmea_parser.Text.{Text, split}
use nmea_parser.Parser.Talker.{NavigationSystem}
use nmea_parser.Gnss.Libraries.{Libraries}
use nmea_parser.Gnss.Data.{GnssMessage}
use nmea_parser.Gnss.Fields.{pick_hex_field}

-- `.map(|wk| wk & 0x3ff)`.
abbrev pub low_ten : Option ℕ → Option ℕ
low_ten none = none
low_ten (some wk) = some (wk % 2 ^ 10)

module _ {F S T Z : Type 0} (libs : Libraries S Z) where
  unfoldable pub handle : Text → NavigationSystem → Outcome (GnssMessage F S T Z)
  handle sentence nav_system = do
    let fields = split b',' sentence
    prn ← pick_hex_field libs 8 fields 3
    week ← pick_hex_field libs 16 fields 4
    health_bits ← pick_hex_field libs 8 fields 5
    eccentricity ← pick_hex_field libs 16 fields 6
    reference_time ← pick_hex_field libs 8 fields 7
    sigma ← pick_hex_field libs 16 fields 8
    omega_dot ← pick_hex_field libs 16 fields 9
    root_a ← pick_hex_field libs 32 fields 10
    omega_ ← pick_hex_field libs 32 fields 11
    omega_o ← pick_hex_field libs 32 fields 12
    mo ← pick_hex_field libs 32 fields 13
    af0 ← pick_hex_field libs 16 fields 14
    af1 ← pick_hex_field libs 16 fields 15
    ok (
        GnssMessage.alm (record {
          source = nav_system;
          prn = prn;
          week_number = low_ten week;
          health_bits = health_bits;
          eccentricity = eccentricity;
          reference_time = reference_time;
          sigma = sigma;
          omega_dot = omega_dot;
          root_a = root_a;
          omega_ = omega_;
          omega_o = omega_o;
          mo = mo;
          af0 = af0;
          af1 = af1;
        }))
