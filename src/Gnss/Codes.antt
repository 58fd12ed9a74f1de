-- ===== src/Gnss/Codes.antt =====
-- gnss/: `new` of the enumerations, and the codes of single fields.
use nmea_parser.Common.{
  ℕ, Bool, true, false, Option, none, some, ◌==◌, if◌then◌else◌, Outcome, ok, err, invalid_sentence,
}
use nmea_parser.Text.{Text, codes, eq_text, is_empty}
use nmea_parser.Gnss.Data.{FaaMode, GgaQualityIndicator, GnsModeIndicator, GsaFixMode}

unfoldable pub faa_mode : Text → Outcome FaaMode
faa_mode val =
    if eq_text val (codes "A")
    then ok FaaMode.autonomous
    else if eq_text val (codes "D")
    then ok FaaMode.differential
    else if eq_text val (codes "E")
    then ok FaaMode.estimated
    else if eq_text val (codes "N")
    then ok FaaMode.not_valid
    else err invalid_sentence

unfoldable pub gga_quality : ℕ → GgaQualityIndicator
gga_quality a =
    if a == 0
    then GgaQualityIndicator.invalid
    else if a == 1
    then GgaQualityIndicator.gps_fix
    else if a == 2
    then GgaQualityIndicator.d_gps_fix
    else if a == 3
    then GgaQualityIndicator.pps_fix
    else if a == 4
    then GgaQualityIndicator.real_time_kinematic
    else if a == 5
    then GgaQualityIndicator.real_time_kinematic_float
    else if a == 6
    then GgaQualityIndicator.dead_reckoning
    else if a == 7
    then GgaQualityIndicator.manual_input_mode
    else if a == 8
    then GgaQualityIndicator.simulation_mode
    else GgaQualityIndicator.invalid

unfoldable pub gns_mode : ℕ → GnsModeIndicator
gns_mode a =
    if a == b'N'
    then GnsModeIndicator.invalid
    else if a == b'A'
    then GnsModeIndicator.autonomous
    else if a == b'D'
    then GnsModeIndicator.differential
    else if a == b'P'
    then GnsModeIndicator.precise
    else if a == b'R'
    then GnsModeIndicator.real_time_kinematic
    else if a == b'F'
    then GnsModeIndicator.real_time_kinematic_float
    else if a == b'E'
    then GnsModeIndicator.dead_reckoning
    else if a == b'M'
    then GnsModeIndicator.manual_input_mode
    else if a == b'S'
    then GnsModeIndicator.simulation_mode
    else GnsModeIndicator.invalid

-- GSA: the two modes.
unfoldable pub gsa_mode1 : Text → Outcome (Option Bool)
gsa_mode1 s =
    if eq_text s (codes "M")
    then ok (some false)
    else if eq_text s (codes "A")
    then ok (some true)
    else if is_empty s
    then ok none
    else err invalid_sentence

unfoldable pub gsa_mode2 : Text → Outcome (Option GsaFixMode)
gsa_mode2 s =
    if eq_text s (codes "1")
    then ok (some GsaFixMode.not_available)
    else if eq_text s (codes "2")
    then ok (some GsaFixMode.fix2_d)
    else if eq_text s (codes "3")
    then ok (some GsaFixMode.fix3_d)
    else if is_empty s
    then ok none
    else err invalid_sentence

-- RMC: the status of the receiver.
unfoldable pub rmc_status : Text → Outcome (Option Bool)
rmc_status s =
    if eq_text s (codes "A")
    then ok (some true)
    else if eq_text s (codes "V")
    then ok (some false)
    else if is_empty s
    then ok none
    else err invalid_sentence

-- GLL and VBW: whether the data is valid.
unfoldable pub gll_valid : Text → Option Bool
gll_valid s =
    if eq_text s (codes "A") then some true else if eq_text s (codes "V") then some false else none

unfoldable pub vbw_valid : Text → Option Bool
vbw_valid s = if eq_text s (codes "A") then some true else if is_empty s then none else some false
