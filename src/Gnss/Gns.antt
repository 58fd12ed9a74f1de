-- ===== src/Gnss/Gns.antt =====
-- gnss/gns.rs: GNSS fix data.
use nmea_parser.Common.{map, drop, get_or, Outcome, ok, ◌>>=◌}
use nmea_parser.Text.{Text, split}
use nmea_parser.Numbers.{F64}
use nmea_parser.Chrono.{Chrono}
use nmea_parser.Parser.Talker.{NavigationSystem}
use nmea_parser.Gnss.Data.{GnssMessage}
use nmea_parser.Gnss.Fields.{
  pick_u8_field, pick_u16_field, pick_f64_field, field_or_empty, to_option,
}
use nmea_parser.Gnss.Codes.{gns_mode}
use nmea_parser.Gnss.Times.{start_of_2000, parse_hhmmss}
use nmea_parser.Gnss.Coordinates.{parse_latitude_ddmm_mmm, parse_longitude_dddmm_mmm}

module _ {F S T Z : Type 0} (f64 : F64 F) (chrono : Chrono T) where
  unfoldable pub handle : Text → NavigationSystem → Outcome (GnssMessage F S T Z)
  handle sentence nav_system = do
    let fields = split b',' sentence
    now ← start_of_2000 chrono
    let modes = field_or_empty fields 6
    timestamp ← to_option (parse_hhmmss chrono (field_or_empty fields 1) now)
    latitude ← parse_latitude_ddmm_mmm f64 (field_or_empty fields 2) (field_or_empty fields 3)
    longitude ← parse_longitude_dddmm_mmm f64 (field_or_empty fields 4) (field_or_empty fields 5)
    satellite_count ← pick_u8_field fields 7
    hdop ← pick_f64_field f64 fields 8
    altitude ← pick_f64_field f64 fields 9
    geoid_separation ← pick_f64_field f64 fields 10
    age_of_dgps ← pick_f64_field f64 fields 11
    ref_station_id ← pick_u16_field fields 12
    ok (
        GnssMessage.gns (record {
          source = nav_system;
          timestamp = timestamp;
          latitude = latitude;
          longitude = longitude;
          gps_mode = gns_mode (get_or modes 0 b' ');
          glonass_mode = gns_mode (get_or modes 1 b' ');
          other_modes = map gns_mode (drop 2 modes);
          satellite_count = satellite_count;
          hdop = hdop;
          altitude = altitude;
          geoid_separation = geoid_separation;
          age_of_dgps = age_of_dgps;
          ref_station_id = ref_station_id;
        }))
