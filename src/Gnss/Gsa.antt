-- ===== src/Gnss/Gsa.antt =====
-- gnss/gsa.rs: dilution of precision and active satellites.
use nmea_parser.Common.{
  ℕ, Option, none, some, List, [], ◌∷◌, suc, zero, if◌then◌else◌, not, Outcome, ok, ◌>>=◌,
}
use nmea_parser.Text.{Text, split, is_empty}
use nmea_parser.Numbers.{F64}
use nmea_parser.Parser.Talker.{NavigationSystem}
use nmea_parser.Gnss.Data.{GnssMessage}
use nmea_parser.Gnss.Fields.{pick_u8_field, pick_f64_field, field_or_empty}
use nmea_parser.Gnss.Codes.{gsa_mode1, gsa_mode2}

-- `v.push(val)`, before the rest.
abbrev with_prn : Option ℕ → List ℕ → List ℕ
with_prn none v = v
with_prn (some val) v = val ∷ v

-- The PRN numbers in the `n` fields from `i` on.
unfoldable pub prn_numbers_from : List Text → ℕ → ℕ → Outcome (List ℕ)
prn_numbers_from fields i zero = ok []
prn_numbers_from fields i (suc n) =
    let rest = prn_numbers_from fields (suc i) n in
    if not (is_empty (field_or_empty fields i))
    then (pick_u8_field fields i >>= λ val. rest >>= λ v. ok (with_prn val v))
    else rest

module _ {F S T Z : Type 0} (f64 : F64 F) where
  unfoldable pub handle : Text → NavigationSystem → Outcome (GnssMessage F S T Z)
  handle sentence nav_system = do
    let fields = split b',' sentence
    mode1_automatic ← gsa_mode1 (field_or_empty fields 1)
    mode2_3d ← gsa_mode2 (field_or_empty fields 2)
    prn_numbers ← prn_numbers_from fields 3 12
    pdop ← pick_f64_field f64 fields 15
    hdop ← pick_f64_field f64 fields 16
    vdop ← pick_f64_field f64 fields 17
    ok (
        GnssMessage.gsa (record {
          source = nav_system;
          mode1_automatic = mode1_automatic;
          mode2_3d = mode2_3d;
          prn_numbers = prn_numbers;
          pdop = pdop;
          hdop = hdop;
          vdop = vdop;
        }))
