-- ===== src/Runs/Gnss.antt =====
-- GNSS sentences from end to end, and the theorems on their fields at concrete inputs.
use nmea_parser.Common.{
  invalid_sentence, ℤ, ℕ, ◌≡◌, ◌⊎◌, ◌+ℤ◌, ◌*ℤ◌, ◌≢◌, ◌↔◌, refl, Bool, true, Option, none, some,
  List, [], ◌∷◌, Outcome, ok, err, panic, pos, negsuc, arith,
}
use nmea_parser.Text.{
  Text, codes, rsplit, byte_len, get_range, split_at, split, parse_unsigned, digits_value,
}
use nmea_parser.Text.Bytes.{bytes, utf8, get_from}
use nmea_parser.Text.Integers.{parse_i32}
use nmea_parser.Store.{new}
use nmea_parser.Message.{ParsedMessage}
use nmea_parser.Chrono.{parse_valid_utc}
use nmea_parser.Gnss.Data.{GnssMessage}
use nmea_parser.Gnss.Fields.{pick_number_field}
use nmea_parser.Gnss.Codes.{rmc_status, gsa_mode1, gsa_mode2}
use nmea_parser.Gnss.Times.{
  start_of_2000, i32_result, parse_hhmmss_ss, parse_time_with_fractions, pick_date_with_fields,
  parse_time, parse_date, parse_hhmmss, parse_yymmdd_hhmmss, pick_timezone_with_fields,
  offset_seconds, offset_or_err,
}
use nmea_parser.Gnss.Times.Printed.{three, parse_yymmdd_hhmmss-three}
use nmea_parser.Gnss.Times.Zones.{pick_timezone_with_fields-value}
use nmea_parser.Gnss.Coordinates.{
  is_degrees, parse_degrees, signed_by, parse_latitude_ddmm_mmm, parse_longitude_dddmm_mmm,
}
use nmea_parser.Gnss.Coordinates.Digits.{IsDegrees, is_degrees-IsDegrees}
use nmea_parser.Gnss.Coordinates.Values.{degrees_value, parse_latitude_ddmm_mmm-value}
use nmea_parser.Gnss.Gga
use nmea_parser.Gnss.Rmc
use nmea_parser.Gnss.Gsa
use nmea_parser.Gnss.Zda
use nmea_parser.Gnss.Dispatch.{gnss_message, dispatch_gnss}
use nmea_parser.Gnss.Total.{gnss_message_panics}
use nmea_parser.Parser.Frame.{frame}
use nmea_parser.Parser.Talker.{NavigationSystem, identify}
use nmea_parser.Parser.Dispatch.{parse_sentence}
use nmea_parser.Runs.Toys.{Float, Time, floats, calendar, libraries}

abbrev Message : Type 0
Message = ParsedMessage Float Time (GnssMessage Float Text Time ℤ)

run : Bool → Text → Outcome Message
unfolding parse_sentence frame rsplit byte_len get_range split_at identify split dispatch_gnss
    gnss_message new parse_unsigned digits_value pick_number_field parse_time parse_date
    parse_hhmmss parse_yymmdd_hhmmss parse_valid_utc bytes utf8 is_degrees parse_degrees
    parse_latitude_ddmm_mmm parse_longitude_dddmm_mmm start_of_2000 parse_i32 ◌+ℤ◌ ◌*ℤ◌ rmc_status
    gsa_mode1 gsa_mode2
run checks text = (parse_sentence floats calendar libraries checks new text).1

latitude_of : Outcome Message → Option (Option Float)
latitude_of (ok (ParsedMessage.gnss (GnssMessage.gga d))) = some d.latitude
latitude_of (ok (ParsedMessage.gnss (GnssMessage.rmc d))) = some d.latitude
latitude_of _ = none

time_of : Outcome Message → Option Time
time_of (ok (ParsedMessage.gnss (GnssMessage.gga d))) = d.timestamp
time_of (ok (ParsedMessage.gnss (GnssMessage.rmc d))) = d.timestamp
time_of _ = none

prn_of : Outcome Message → List ℕ
prn_of (ok (ParsedMessage.gnss (GnssMessage.gsa d))) = d.prn_numbers
prn_of _ = []

fix_sentence : Text
fix_sentence = codes "$GPGGA,123519,4807.038,N,01131.000,E,1,08,0.9,545.4,M,46.9,M,,*47"

fix_latitude :
    latitude_of (run true fix_sentence)
    ≡ some (
        some (
          Float.sum
            (Float.literal (codes "48"))
            (Float.quotient (Float.literal (codes "07.038")) (Float.decimal 60 0))))
unfolding run latitude_of fix_sentence Gga.handle
fix_latitude = refl

fix_time : time_of (run true fix_sentence) ≡ some (744000, 45319)
unfolding run time_of fix_sentence Gga.handle
fix_time = refl

recommended_time :
    time_of (run true (codes "$GPRMC,225446,A,4916.45,N,12311.12,W,000.5,054.7,191120,020.3,E*67"))
    ≡ some (751768, 82486)
unfolding run time_of Rmc.handle Rmc.variation_of
recommended_time = refl

active_satellites :
    prn_of (run true (codes "$GPGSA,A,3,19,28,14,18,27,22,31,39,,,,,1.7,1.0,1.3*34"))
    ≡ 19 ∷ 28 ∷ 14 ∷ 18 ∷ 27 ∷ 22 ∷ 31 ∷ 39 ∷ []
unfolding run prn_of Gsa.handle Gsa.prn_numbers_from
active_satellites = refl

zone_of : Outcome Message → Option (Option ℤ)
zone_of (ok (ParsedMessage.gnss (GnssMessage.zda d))) = some d.timezone_local
zone_of _ = none

run_zda : Bool → Text → Outcome Message
unfolding run Zda.handle parse_hhmmss_ss parse_time_with_fractions get_from pick_date_with_fields
    pick_timezone_with_fields offset_seconds i32_result
run_zda checks text = run checks text

-- Half an hour to the east is read as no offset.
half_an_hour :
    zone_of (run_zda true (codes "$GPZDA,072914.00,31,05,2018,00,30")) ≡ some (some (pos 0))
unfolding run_zda zone_of
half_an_hour = refl

west :
    zone_of (run_zda true (codes "$GPZDA,072914.00,31,05,2018,-03,30")) ≡ some (some (negsuc 12599))
unfolding run_zda zone_of
west = refl

-- An hour out of the range of an i32 offset.
overflowing_hour : run_zda true (codes "$GPZDA,072914.00,31,05,2018,999999,0") ≡ panic
unfolding run_zda
overflowing_hour = refl

zda_overflows :
    gnss_message {F = Float} {S = Text} {Z = ℤ} floats calendar libraries true
      (codes "$ZDA")
      (codes "$GPZDA,072914.00,31,05,2018,999999,0")
      NavigationSystem.gps
    ≡ panic
unfolding gnss_message Zda.handle parse_hhmmss_ss parse_time_with_fractions get_from
    pick_date_with_fields pick_timezone_with_fields offset_seconds i32_result split parse_unsigned
    digits_value parse_i32 parse_valid_utc get_range split_at ◌+ℤ◌ ◌*ℤ◌
zda_overflows = refl

gnss_message_panics_example : (codes "$ZDA" ≡ codes "$ZDA") × (true ≡ true)
gnss_message_panics_example =
    gnss_message_panics {F = Float} {S = Text} {Z = ℤ} floats calendar libraries (744000, 0) refl
      (751440, 0) refl (codes "$GPZDA,072914.00,31,05,2018,999999,0") NavigationSystem.gps true
      (codes "$ZDA") zda_overflows

is_degrees-IsDegrees_example :
    (is_degrees 4 (bytes (codes "4807.038")) ≡ true) ↔ IsDegrees 4 (codes "4807.038")
is_degrees-IsDegrees_example = is_degrees-IsDegrees 4 (codes "4807.038")

parse_latitude_ddmm_mmm-value_example :
    let s = codes "4807.038" in
    ((s ≡ []) × (parse_latitude_ddmm_mmm floats s (codes "S") ≡ ok none))
    ⊎ (IsDegrees 4 s
        × (parse_latitude_ddmm_mmm floats s (codes "S")
            ≡ ok (some (signed_by floats (codes "S") (codes "S") (degrees_value floats 2 2 s)))))
    ⊎ ((s ≢ [])
        × (¬ IsDegrees 4 s)
        × (parse_latitude_ddmm_mmm floats s (codes "S") ≡ err invalid_sentence))
parse_latitude_ddmm_mmm-value_example =
    parse_latitude_ddmm_mmm-value floats (codes "4807.038") (codes "S")

parse_yymmdd_hhmmss-three_example :
    parse_yymmdd_hhmmss calendar (three 19 11 20 []) (three 22 54 46 (codes ".00"))
    ≡ parse_valid_utc calendar (pos 2020) 11 19 22 54 46 0
parse_yymmdd_hhmmss-three_example =
    parse_yymmdd_hhmmss-three calendar (751440, 0) refl refl 19 11 20 22 54 46 [] (codes ".00")
      (omega arith, omega arith, omega arith) (omega arith, omega arith, omega arith)

abbrev zone_fields : List Text
zone_fields = codes "00" ∷ codes "30" ∷ []

parsed_zero : parse_i32 (codes "00") ≡ some (pos 0)
unfolding parse_i32 digits_value
parsed_zero = refl

parsed_thirty : parse_i32 (codes "30") ≡ some (pos 30)
unfolding parse_i32 digits_value
parsed_thirty = refl

pick_timezone_with_fields-value_example :
    pick_timezone_with_fields libraries true zone_fields 0 1
    ≡ offset_or_err (libraries.east_opt (pos 0))
pick_timezone_with_fields-value_example =
    pick_timezone_with_fields-value libraries true zone_fields 0 1 (pos 0) 30
      (omega arith, omega arith, omega arith) parsed_zero parsed_thirty
