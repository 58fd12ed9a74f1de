-- ===== src/Gnss/Steps.antt =====
-- The field pickers and codes of GNSS sentences, which never panic.
use nmea_parser.Common.{
  [], ℕ, zero, suc, ◌≢◌, Option, List, panic, bind-ne_panic, ok-ne_panic, if-ne_panic, arith, not,
}
use nmea_parser.Text.{split, is_empty, Text}
use nmea_parser.Numbers.{F64}
use nmea_parser.Gnss.Libraries.{Libraries}
use nmea_parser.Gnss.Fields.{pick_u8_field, field_or_empty, pick_number_field, pick_hex_field}
use nmea_parser.Gnss.Codes.{faa_mode, gsa_mode1, gsa_mode2, rmc_status}
use nmea_parser.Gnss.Times.Total.{
  outcomes, start_of_2000-ne_panic, parse_hhmmss-ne_panic, parse_yymmdd_hhmmss-ne_panic,
  parse_hhmmss_ss-ne_panic, pick_date_with_fields-ne_panic, pick_timezone_with_fields-ne_panic,
}
use nmea_parser.Gnss.Coordinates.{parse_latitude_m_m, parse_longitude_m_m}
use nmea_parser.Gnss.Coordinates.Values.{latitude-ne_panic, longitude-ne_panic}
use nmea_parser.Gnss.Rmc.{variation_of}
use nmea_parser.Gnss.Gsa.{prn_numbers_from}
use nmea_parser.Gnss.Mwv.{scaled, speed_knots, speed_kmh}

pub pick_number_field-ne_panic :
    {A : Type 0} (parse : Text → Option A) (split : List Text) (num : ℕ)
    → pick_number_field parse split num ≢ panic
unfolding pick_number_field
pick_number_field-ne_panic parse split num = ground arith

pub pick_hex_field-ne_panic :
    {S Z : Type 0} (libs : Libraries S Z) (width : ℕ) (split : List Text) (num : ℕ)
    → pick_hex_field libs width split num ≢ panic
unfolding pick_hex_field
pick_hex_field-ne_panic libs width split num = pick_number_field-ne_panic _ split num

pub faa_mode-ne_panic : (t : Text) → faa_mode t ≢ panic
unfolding faa_mode
faa_mode-ne_panic t = ground arith

pub gsa_mode1-ne_panic : (t : Text) → gsa_mode1 t ≢ panic
unfolding gsa_mode1
gsa_mode1-ne_panic t = ground arith

pub gsa_mode2-ne_panic : (t : Text) → gsa_mode2 t ≢ panic
unfolding gsa_mode2
gsa_mode2-ne_panic t = ground arith

pub rmc_status-ne_panic : (t : Text) → rmc_status t ≢ panic
unfolding rmc_status
rmc_status-ne_panic t = ground arith

pub prn_numbers_from-ne_panic : (fields : List Text) (i n : ℕ) → prn_numbers_from fields i n ≢ panic
unfolding prn_numbers_from
prn_numbers_from-ne_panic fields i zero = ok-ne_panic []
prn_numbers_from-ne_panic fields i (suc n) =
    if-ne_panic (not (is_empty (field_or_empty fields i))) _ _
      (bind-ne_panic (pick_u8_field fields i) _ (pick_number_field-ne_panic _ fields i) (λ val.
        bind-ne_panic (prn_numbers_from fields (suc i) n) _
          (prn_numbers_from-ne_panic fields (suc i) n) (λ v e. cc)))
      (prn_numbers_from-ne_panic fields (suc i) n)

module _ {F : Type 0} (f64 : F64 F) where
  pub variation_of-ne_panic : (side : Text) (val : Option F) → variation_of f64 side val ≢ panic
  unfolding variation_of
  variation_of-ne_panic side val = ground arith

  pub latitude_m_m-ne_panic : (s h : Text) → parse_latitude_m_m f64 s h ≢ panic
  unfolding parse_latitude_m_m
  latitude_m_m-ne_panic s h = ground arith

  pub longitude_m_m-ne_panic : (s h : Text) → parse_longitude_m_m f64 s h ≢ panic
  unfolding parse_longitude_m_m
  longitude_m_m-ne_panic s h = ground arith

  pub scaled-ne_panic : (fields : List Text) (factor : F) → scaled f64 fields factor ≢ panic
  unfolding scaled
  scaled-ne_panic fields factor = search (outcomes, pick_number_field-ne_panic) depth 20

  pub speed_knots-ne_panic :
      (fields : List Text) (unit : Text) → speed_knots f64 fields unit ≢ panic
  unfolding speed_knots
  speed_knots-ne_panic fields unit =
      search (outcomes, scaled-ne_panic, pick_number_field-ne_panic) depth 20

  pub speed_kmh-ne_panic : (fields : List Text) (unit : Text) → speed_kmh f64 fields unit ≢ panic
  unfolding speed_kmh
  speed_kmh-ne_panic fields unit =
      search (outcomes, scaled-ne_panic, pick_number_field-ne_panic) depth 20

pub ruleset steps = (
  outcomes, pick_number_field-ne_panic, pick_hex_field-ne_panic, faa_mode-ne_panic,
  gsa_mode1-ne_panic, gsa_mode2-ne_panic, rmc_status-ne_panic, prn_numbers_from-ne_panic,
  latitude-ne_panic, longitude-ne_panic, variation_of-ne_panic, latitude_m_m-ne_panic,
  longitude_m_m-ne_panic, speed_knots-ne_panic, speed_kmh-ne_panic,
)
