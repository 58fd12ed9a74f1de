-- ===== src/Gnss/Dtm.antt =====
-- gnss/dtm.rs: datum.
use nmea_parser.Common.{Outcome, ok, ◌>>=◌}
use nmea_parser.Text.{Text, split}
use nmea_parser.Numbers.{F64}
use nmea_parser.Parser.Talker.{NavigationSystem}
use nmea_parser.Gnss.Data.{GnssMessage}
use nmea_parser.Gnss.Fields.{pick_f64_field, pick_string_field, field_or_empty}
use nmea_parser.Gnss.Coordinates.{parse_latitude_m_m, parse_longitude_m_m}

module _ {F S T Z : Type 0} (f64 : F64 F) where
  unfoldable pub handle : Text → NavigationSystem → Outcome (GnssMessage F S T Z)
  handle sentence nav_system = do
    let fields = split b',' sentence
    lat_offset ← parse_latitude_m_m f64 (field_or_empty fields 3) (field_or_empty fields 4)
    lon_offset ← parse_longitude_m_m f64 (field_or_empty fields 5) (field_or_empty fields 6)
    alt_offset ← pick_f64_field f64 fields 7
    ok (
        GnssMessage.dtm (record {
          source = nav_system;
          datum_id = pick_string_field fields 1;
          datum_sub_id = pick_string_field fields 2;
          lat_offset = lat_offset;
          lon_offset = lon_offset;
          alt_offset = alt_offset;
          ref_datum_id = pick_string_field fields 8;
        }))
