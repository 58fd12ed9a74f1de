-- ===== src/Ais/Data.antt =====
-- ais/mod.rs: the two structures that several message types fill. `F` stands for f64 and `T` for
-- chrono's `DateTime<Utc>`.
use nmea_parser.Common.{ℕ, Bool, Option}
use nmea_parser.Text.{Text}
use nmea_parser.Ais.Types.{
  Station, AisClass, NavigationStatus, PositioningSystemMeta, RotDirection, ShipType, CargoType,
  PositionFixType,
}

pub record VesselDynamicData (F : Type 0) : Type 0 where
  pub own_vessel : Bool
  pub station : Station
  pub ais_type : AisClass
  pub mmsi : ℕ
  pub nav_status : NavigationStatus
  pub rot : Option F
  pub rot_direction : Option RotDirection
  pub sog_knots : Option F
  pub high_position_accuracy : Bool
  pub latitude : Option F
  pub longitude : Option F
  pub cog : Option F
  pub heading_true : Option F
  pub timestamp_seconds : ℕ
  pub positioning_system_meta : Option PositioningSystemMeta
  pub current_gnss_position : Option Bool
  pub special_manoeuvre : Option Bool
  pub raim_flag : Bool
  pub class_b_unit_flag : Option Bool
  pub class_b_display : Option Bool
  pub class_b_dsc : Option Bool
  pub class_b_band_flag : Option Bool
  pub class_b_msg22_flag : Option Bool
  pub class_b_mode_flag : Option Bool
  pub class_b_css_flag : Option Bool
  pub radio_status : Option ℕ

pub record VesselStaticData (T : Type 0) : Type 0 where
  pub own_vessel : Bool
  pub ais_type : AisClass
  pub mmsi : ℕ
  pub ais_version_indicator : ℕ
  pub imo_number : Option ℕ
  pub call_sign : Option Text
  pub name : Option Text
  pub ship_type : ShipType
  pub cargo_type : CargoType
  pub equipment_vendor_id : Option Text
  pub equipment_model : Option ℕ
  pub equipment_serial_number : Option ℕ
  pub dimension_to_bow : Option ℕ
  pub dimension_to_stern : Option ℕ
  pub dimension_to_port : Option ℕ
  pub dimension_to_starboard : Option ℕ
  pub position_fix_type : Option PositionFixType
  pub eta : Option T
  pub draught10 : Option ℕ
  pub destination : Option Text
  pub mothership_mmsi : Option ℕ
