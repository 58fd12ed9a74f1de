-- ===== src/Ais/Vdm/T5.antt =====
-- ais/vdm_t5.rs: type 5, ship static voyage related data.
pub mod Layout
use nmea_parser.Common.{Bool, none, some, Outcome, ok, ◌>>=◌}
use nmea_parser.Bits.{Bits, pick_string}
use nmea_parser.Chrono.{Chrono}
use nmea_parser.Eta.{pick_eta}
use nmea_parser.Message.{ParsedMessage}
use nmea_parser.Ais.Types.{Station, AisClass}
use nmea_parser.Ais.Codes.{ship_type, cargo_type}
use nmea_parser.Ais.Fields.{pick_u8, pick_u16, pick_u32, unless, non_empty, fix_type}

module _ {F T G : Type 0} (chrono : Chrono T) where
  unfoldable pub handle : Bits → Station → Bool → Outcome (ParsedMessage F T G)
  handle bv station own_vessel = do
    call_sign ← pick_string bv 70 7
    name ← pick_string bv 112 20
    eta ← pick_eta chrono bv 274
    destination ← pick_string bv 302 20
    ok (
        ParsedMessage.vessel_static_data (record {
          own_vessel = own_vessel;
          ais_type = AisClass.class_b;
          mmsi = pick_u32 bv 8 30;
          ais_version_indicator = pick_u8 bv 38 2;
          imo_number = unless 0 (pick_u32 bv 40 30);
          call_sign = non_empty call_sign;
          name = non_empty name;
          ship_type = ship_type (pick_u8 bv 232 8);
          cargo_type = cargo_type (pick_u8 bv 232 8);
          equipment_vendor_id = none;
          equipment_model = none;
          equipment_serial_number = none;
          dimension_to_bow = some (pick_u16 bv 240 9);
          dimension_to_stern = some (pick_u16 bv 249 9);
          dimension_to_port = some (pick_u16 bv 258 6);
          dimension_to_starboard = some (pick_u16 bv 264 6);
          position_fix_type = fix_type (pick_u8 bv 270 4);
          eta = eta;
          draught10 = some (pick_u8 bv 294 8);
          destination = non_empty destination;
          mothership_mmsi = none;
        }))
