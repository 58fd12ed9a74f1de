-- ===== src/Ais/Display.antt =====
-- ais/: `Display` of the enumerations, as the text that `fmt` writes, and `Default`.
use nmea_parser.Text.{Text, codes}
use nmea_parser.Ais.Types.{
  Station, AisClass, NavigationStatus, PositioningSystemMeta, RotDirection, ShipType, CargoType,
  PositionFixType,
}
use nmea_parser.Ais.Messages.{NavAidType, StationType, StationInterval}

abbrev station_text : Station → Text
station_text Station.base_station = codes "base station"
station_text Station.dependent_ais_base_station = codes "dependent AIS base station"
station_text Station.mobile_station = codes "mobile station"
station_text Station.aid_to_navigation_station = codes "aid to navigation station"
station_text Station.ais_receiving_station = codes "ais receiving station"
station_text Station.limited_base_station = codes "limited base station"
station_text Station.ais_transmitting_station = codes "AIS transmitting station"
station_text Station.repeater_station = codes "repeater station"
station_text Station.other = codes "other"

abbrev ais_class_text : AisClass → Text
ais_class_text AisClass.unknown = codes "unknown"
ais_class_text AisClass.class_a = codes "Class A"
ais_class_text AisClass.class_b = codes "Class B"

abbrev navigation_status_text : NavigationStatus → Text
navigation_status_text NavigationStatus.under_way_using_engine = codes "under way using engine"
navigation_status_text NavigationStatus.at_anchor = codes "at anchor"
navigation_status_text NavigationStatus.not_under_command = codes "not under command"
navigation_status_text NavigationStatus.restricted_manoeuverability =
    codes "restricted manoeuverability"
navigation_status_text NavigationStatus.constrained_by_draught = codes "constrained by draught"
navigation_status_text NavigationStatus.moored = codes "moored"
navigation_status_text NavigationStatus.aground = codes "aground"
navigation_status_text NavigationStatus.engaged_in_fishing = codes "engaged in fishing"
navigation_status_text NavigationStatus.under_way_sailing = codes "under way sailing"
navigation_status_text NavigationStatus.reserved9 = codes "(reserved9)"
navigation_status_text NavigationStatus.reserved10 = codes "(reserved10)"
navigation_status_text NavigationStatus.reserved11 = codes "(reserved11)"
navigation_status_text NavigationStatus.reserved12 = codes "(reserved12)"
navigation_status_text NavigationStatus.reserved13 = codes "(reserved13)"
navigation_status_text NavigationStatus.ais_sart_is_active = codes "ais sart is active"
navigation_status_text NavigationStatus.not_defined = codes "(notDefined)"

abbrev positioning_system_meta_text : PositioningSystemMeta → Text
positioning_system_meta_text PositioningSystemMeta.operative = codes "operative"
positioning_system_meta_text PositioningSystemMeta.manual_input_mode = codes "manual input mode"
positioning_system_meta_text PositioningSystemMeta.dead_reckoning_mode = codes "dead reckoning mode"
positioning_system_meta_text PositioningSystemMeta.inoperative = codes "inoperative"

abbrev rot_direction_text : RotDirection → Text
rot_direction_text RotDirection.port = codes "port"
rot_direction_text RotDirection.center = codes "center"
rot_direction_text RotDirection.starboard = codes "starboard"

abbrev ship_type_text : ShipType → Text
ship_type_text ShipType.not_available = codes "(not available)"
ship_type_text ShipType.reserved1 = codes "(reserved)"
ship_type_text ShipType.wing_in_ground = codes "wing in ground"
ship_type_text ShipType.fishing = codes "fishing"
ship_type_text ShipType.towing = codes "towing"
ship_type_text ShipType.towing_long = codes "towing, long"
ship_type_text ShipType.dredging_or_underwater_ops = codes "dredging or underwater ops"
ship_type_text ShipType.diving_ops = codes "diving ops"
ship_type_text ShipType.military_ops = codes "military ops"
ship_type_text ShipType.sailing = codes "sailing"
ship_type_text ShipType.pleasure_craft = codes "pleasure craft"
ship_type_text ShipType.reserved38 = codes "(reserved)"
ship_type_text ShipType.reserved39 = codes "(reserved)"
ship_type_text ShipType.high_speed_craft = codes "high-speed craft"
ship_type_text ShipType.pilot = codes "pilot"
ship_type_text ShipType.search_and_rescue = codes "search and rescue"
ship_type_text ShipType.tug = codes "tug"
ship_type_text ShipType.port_tender = codes "port tender"
ship_type_text ShipType.anti_pollution_equipment = codes "anti-pollution equipment"
ship_type_text ShipType.law_enforcement = codes "law enforcement"
ship_type_text ShipType.spare_local56 = codes "(local)"
ship_type_text ShipType.spare_local57 = codes "(local)"
ship_type_text ShipType.medical_transport = codes "medical transport"
ship_type_text ShipType.noncombatant = codes "noncombatant"
ship_type_text ShipType.passenger = codes "passenger"
ship_type_text ShipType.cargo = codes "cargo"
ship_type_text ShipType.tanker = codes "tanker"
ship_type_text ShipType.other = codes "other"

abbrev cargo_type_text : CargoType → Text
cargo_type_text CargoType.undefined = codes "undefined"
cargo_type_text CargoType.hazardous_category_a = codes "hazardous category A"
cargo_type_text CargoType.hazardous_category_b = codes "hazardous category B"
cargo_type_text CargoType.hazardous_category_c = codes "hazardous category C"
cargo_type_text CargoType.hazardous_category_d = codes "hazardous category D"
cargo_type_text CargoType.reserved5 = codes "(reserved)"
cargo_type_text CargoType.reserved6 = codes "(reserved)"
cargo_type_text CargoType.reserved7 = codes "(reserved)"
cargo_type_text CargoType.reserved8 = codes "(reserved)"
cargo_type_text CargoType.reserved9 = codes "(reserved)"

abbrev position_fix_type_text : PositionFixType → Text
position_fix_type_text PositionFixType.undefined = codes "undefined"
position_fix_type_text PositionFixType.gps = codes "GPS"
position_fix_type_text PositionFixType.glonass = codes "GLONASS"
position_fix_type_text PositionFixType.gps_glonass = codes "GPS/GLONASS"
position_fix_type_text PositionFixType.loran_c = codes "Loran-C"
position_fix_type_text PositionFixType.chayka = codes "Chayka"
position_fix_type_text PositionFixType.integrated_navigation_system =
    codes "integrated navigation system"
position_fix_type_text PositionFixType.surveyed = codes "surveyed"
position_fix_type_text PositionFixType.galileo = codes "Galileo"

abbrev nav_aid_type_text : NavAidType → Text
nav_aid_type_text NavAidType.not_specified = codes "not specified"
nav_aid_type_text NavAidType.reference_point = codes "reference point"
nav_aid_type_text NavAidType.racon = codes "RACON"
nav_aid_type_text NavAidType.fixed_structure = codes "FixedStructure"
nav_aid_type_text NavAidType.reserved4 = codes "(reserved)"
nav_aid_type_text NavAidType.light_without_sectors = codes "light without sectors"
nav_aid_type_text NavAidType.light_with_sectors = codes "light with sectors"
nav_aid_type_text NavAidType.leading_light_front = codes "leading light front"
nav_aid_type_text NavAidType.leading_light_rear = codes "leading light rear"
nav_aid_type_text NavAidType.beacon_cardinal_north = codes "cardinal beacon, north"
nav_aid_type_text NavAidType.beacon_cardinal_east = codes "cardinal beacon, east"
nav_aid_type_text NavAidType.beacon_cardinal_south = codes "cardinal beacon, south"
nav_aid_type_text NavAidType.beacon_cardinal_west = codes "cardinal beacon, west"
nav_aid_type_text NavAidType.beacon_lateral_port = codes "lateral beacon, port side"
nav_aid_type_text NavAidType.beacon_lateral_starboard = codes "lateral beacon, starboard side"
nav_aid_type_text NavAidType.beacon_lateral_preferred_channel_port =
    codes "lateral beacon, preferred channel, port side"
nav_aid_type_text NavAidType.beacon_lateral_preferred_channel_starboard =
    codes "lateral beacon, preferred channel, starboard side"
nav_aid_type_text NavAidType.beacon_isolated_danger = codes "isolated danger beacon"
nav_aid_type_text NavAidType.beacon_safe_water = codes "safe water"
nav_aid_type_text NavAidType.beacon_special_mark = codes "special mark"
nav_aid_type_text NavAidType.cardinal_mark_north = codes "cardinal mark, north"
nav_aid_type_text NavAidType.cardinal_mark_east = codes "cardinal mark, east"
nav_aid_type_text NavAidType.cardinal_mark_south = codes "cardinal mark, south"
nav_aid_type_text NavAidType.cardinal_mark_west = codes "cardinal mark, west"
nav_aid_type_text NavAidType.port_hand_mark = codes "port hand mark"
nav_aid_type_text NavAidType.starboard_hand_mark = codes "starboard hand mark"
nav_aid_type_text NavAidType.preferred_channel_port = codes "preferred channel, port side"
nav_aid_type_text NavAidType.preferred_channel_starboard = codes "preferred channel, starboard side"
nav_aid_type_text NavAidType.isolated_danger = codes "isolated danger"
nav_aid_type_text NavAidType.safe_water = codes "safe water"
nav_aid_type_text NavAidType.special_mark = codes "special mark"
nav_aid_type_text NavAidType.light_vessel = codes "light vessel"

abbrev default_station : Station
default_station = Station.other

abbrev default_ais_class : AisClass
default_ais_class = AisClass.unknown

abbrev default_navigation_status : NavigationStatus
default_navigation_status = NavigationStatus.not_defined

abbrev default_rot_direction : RotDirection
default_rot_direction = RotDirection.center

abbrev default_ship_type : ShipType
default_ship_type = ShipType.not_available

abbrev default_cargo_type : CargoType
default_cargo_type = CargoType.undefined

abbrev default_nav_aid_type : NavAidType
default_nav_aid_type = NavAidType.not_specified

abbrev default_station_type : StationType
default_station_type = StationType.all_types

abbrev default_station_interval : StationInterval
default_station_interval = StationInterval.autonomous
