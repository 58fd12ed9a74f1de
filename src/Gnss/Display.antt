-- ===== src/Gnss/Display.antt =====
-- gnss/: `Display` of the enumerations, as the text that `fmt` writes.
use nmea_parser.Common.{◌≡◌, ok, arith}
use nmea_parser.Text.{Text, codes}
use nmea_parser.Text.Laws.{eq_text_iff}
use nmea_parser.Gnss.Codes.{faa_mode}
use nmea_parser.Parser.Talker.{NavigationSystem}
use nmea_parser.Gnss.Data.{FaaMode, GgaQualityIndicator, GnsModeIndicator, GsaFixMode}

abbrev navigation_system_text : NavigationSystem → Text
navigation_system_text NavigationSystem.combination = codes "combination"
navigation_system_text NavigationSystem.gps = codes "GPS"
navigation_system_text NavigationSystem.glonass = codes "GLONASS"
navigation_system_text NavigationSystem.galileo = codes "Galileo"
navigation_system_text NavigationSystem.beidou = codes "BeiDou"
navigation_system_text NavigationSystem.navic = codes "Navic"
navigation_system_text NavigationSystem.qzss = codes "QZSS"
navigation_system_text NavigationSystem.proprietary = codes "proprietary"
navigation_system_text NavigationSystem.other = codes "other"

abbrev faa_mode_text : FaaMode → Text
faa_mode_text FaaMode.autonomous = codes "A"
faa_mode_text FaaMode.differential = codes "D"
faa_mode_text FaaMode.estimated = codes "E"
faa_mode_text FaaMode.not_valid = codes "N"
faa_mode_text _ = codes "?"

abbrev gga_quality_indicator_text : GgaQualityIndicator → Text
gga_quality_indicator_text GgaQualityIndicator.invalid = codes "invalid"
gga_quality_indicator_text GgaQualityIndicator.gps_fix = codes "GPS fix"
gga_quality_indicator_text GgaQualityIndicator.d_gps_fix = codes "DGPS fix"
gga_quality_indicator_text GgaQualityIndicator.pps_fix = codes "PPS fix"
gga_quality_indicator_text GgaQualityIndicator.real_time_kinematic = codes "Real-Time Kinematic"
gga_quality_indicator_text GgaQualityIndicator.real_time_kinematic_float =
    codes "Real-Time Kinematic (floating point)"
gga_quality_indicator_text GgaQualityIndicator.dead_reckoning = codes "dead reckoning"
gga_quality_indicator_text GgaQualityIndicator.manual_input_mode = codes "manual input mode"
gga_quality_indicator_text GgaQualityIndicator.simulation_mode = codes "simulation mode"

abbrev gns_mode_indicator_text : GnsModeIndicator → Text
gns_mode_indicator_text GnsModeIndicator.invalid = codes "invalid"
gns_mode_indicator_text GnsModeIndicator.autonomous = codes "autonomous fix"
gns_mode_indicator_text GnsModeIndicator.differential = codes "differential fix"
gns_mode_indicator_text GnsModeIndicator.precise = codes "precise fix"
gns_mode_indicator_text GnsModeIndicator.real_time_kinematic = codes "Real-Time Kinematic"
gns_mode_indicator_text GnsModeIndicator.real_time_kinematic_float =
    codes "Real-Time Kinematic (floating point)"
gns_mode_indicator_text GnsModeIndicator.dead_reckoning = codes "dead reckoning"
gns_mode_indicator_text GnsModeIndicator.manual_input_mode = codes "manual input mode"
gns_mode_indicator_text GnsModeIndicator.simulation_mode = codes "simulation mode"

abbrev gsa_fix_mode_text : GsaFixMode → Text
gsa_fix_mode_text GsaFixMode.not_available = codes "no available"
gsa_fix_mode_text GsaFixMode.fix2_d = codes "2D fix"
gsa_fix_mode_text GsaFixMode.fix3_d = codes "3D fix"

-- A mode that was read is shown as the text that it was read from.
faa_mode_text-faa_mode : (t : Text) (m : FaaMode) → faa_mode t ≡ ok m → faa_mode_text m ≡ t
unfolding faa_mode
faa_mode_text-faa_mode t m e = ground (
  arith,
  eq_text_iff t (codes "A"),
  eq_text_iff t (codes "D"),
  eq_text_iff t (codes "E"),
  eq_text_iff t (codes "N"),
)
