-- ===== src/Ais/Codes.antt =====
-- ais/mod.rs: the codes of the enumerations, `new` and `to_value` of each.
use nmea_parser.Common.{ℕ, Bool, ◌&&◌, ◌||◌, ◌==◌, ltb, leb, if◌then◌else◌}
use nmea_parser.Ais.Types.{NavigationStatus, ShipType, CargoType, PositionFixType}
pub mod Tables

unfoldable pub navigation_status : ℕ → NavigationStatus
navigation_status nav_status =
    if nav_status == 0
    then NavigationStatus.under_way_using_engine
    else if nav_status == 1
    then NavigationStatus.at_anchor
    else if nav_status == 2
    then NavigationStatus.not_under_command
    else if nav_status == 3
    then NavigationStatus.restricted_manoeuverability
    else if nav_status == 4
    then NavigationStatus.constrained_by_draught
    else if nav_status == 5
    then NavigationStatus.moored
    else if nav_status == 6
    then NavigationStatus.aground
    else if nav_status == 7
    then NavigationStatus.engaged_in_fishing
    else if nav_status == 8
    then NavigationStatus.under_way_sailing
    else if nav_status == 9
    then NavigationStatus.reserved9
    else if nav_status == 10
    then NavigationStatus.reserved10
    else if nav_status == 11
    then NavigationStatus.reserved11
    else if nav_status == 12
    then NavigationStatus.reserved12
    else if nav_status == 13
    then NavigationStatus.reserved13
    else if nav_status == 14
    then NavigationStatus.ais_sart_is_active
    else if nav_status == 15
    then NavigationStatus.not_defined
    else NavigationStatus.not_defined

-- `*self as u8`.
pub navigation_status_value : NavigationStatus → ℕ
navigation_status_value NavigationStatus.under_way_using_engine = 0
navigation_status_value NavigationStatus.at_anchor = 1
navigation_status_value NavigationStatus.not_under_command = 2
navigation_status_value NavigationStatus.restricted_manoeuverability = 3
navigation_status_value NavigationStatus.constrained_by_draught = 4
navigation_status_value NavigationStatus.moored = 5
navigation_status_value NavigationStatus.aground = 6
navigation_status_value NavigationStatus.engaged_in_fishing = 7
navigation_status_value NavigationStatus.under_way_sailing = 8
navigation_status_value NavigationStatus.reserved9 = 9
navigation_status_value NavigationStatus.reserved10 = 10
navigation_status_value NavigationStatus.reserved11 = 11
navigation_status_value NavigationStatus.reserved12 = 12
navigation_status_value NavigationStatus.reserved13 = 13
navigation_status_value NavigationStatus.ais_sart_is_active = 14
navigation_status_value NavigationStatus.not_defined = 15

unfoldable pub ship_type : ℕ → ShipType
ship_type raw =
    if leb 0 raw && leb raw 9
    then ShipType.not_available
    else if leb 10 raw && leb raw 19
    then ShipType.reserved1
    else if leb 20 raw && leb raw 29
    then ShipType.wing_in_ground
    else if raw == 30
    then ShipType.fishing
    else if raw == 31
    then ShipType.towing
    else if raw == 32
    then ShipType.towing_long
    else if raw == 33
    then ShipType.dredging_or_underwater_ops
    else if raw == 34
    then ShipType.diving_ops
    else if raw == 35
    then ShipType.military_ops
    else if raw == 36
    then ShipType.sailing
    else if raw == 37
    then ShipType.pleasure_craft
    else if raw == 38
    then ShipType.reserved38
    else if raw == 39
    then ShipType.reserved39
    else if leb 40 raw && leb raw 49
    then ShipType.high_speed_craft
    else if raw == 50
    then ShipType.pilot
    else if raw == 51
    then ShipType.search_and_rescue
    else if raw == 52
    then ShipType.tug
    else if raw == 53
    then ShipType.port_tender
    else if raw == 54
    then ShipType.anti_pollution_equipment
    else if raw == 55
    then ShipType.law_enforcement
    else if raw == 56
    then ShipType.spare_local56
    else if raw == 57
    then ShipType.spare_local57
    else if raw == 58
    then ShipType.medical_transport
    else if raw == 59
    then ShipType.noncombatant
    else if leb 60 raw && leb raw 69
    then ShipType.passenger
    else if leb 70 raw && leb raw 79
    then ShipType.cargo
    else if leb 80 raw && leb raw 89
    then ShipType.tanker
    else if leb 90 raw && leb raw 99
    then ShipType.other
    else ShipType.not_available

-- `*self as u8`.
pub ship_type_value : ShipType → ℕ
ship_type_value ShipType.not_available = 0
ship_type_value ShipType.reserved1 = 10
ship_type_value ShipType.wing_in_ground = 20
ship_type_value ShipType.fishing = 30
ship_type_value ShipType.towing = 31
ship_type_value ShipType.towing_long = 32
ship_type_value ShipType.dredging_or_underwater_ops = 33
ship_type_value ShipType.diving_ops = 34
ship_type_value ShipType.military_ops = 35
ship_type_value ShipType.sailing = 36
ship_type_value ShipType.pleasure_craft = 37
ship_type_value ShipType.reserved38 = 38
ship_type_value ShipType.reserved39 = 39
ship_type_value ShipType.high_speed_craft = 40
ship_type_value ShipType.pilot = 50
ship_type_value ShipType.search_and_rescue = 51
ship_type_value ShipType.tug = 52
ship_type_value ShipType.port_tender = 53
ship_type_value ShipType.anti_pollution_equipment = 54
ship_type_value ShipType.law_enforcement = 55
ship_type_value ShipType.spare_local56 = 56
ship_type_value ShipType.spare_local57 = 57
ship_type_value ShipType.medical_transport = 58
ship_type_value ShipType.noncombatant = 59
ship_type_value ShipType.passenger = 60
ship_type_value ShipType.cargo = 70
ship_type_value ShipType.tanker = 80
ship_type_value ShipType.other = 90

unfoldable pub cargo_type : ℕ → CargoType
cargo_type raw =
    if raw == 10 || raw == 20 || raw == 40 || raw == 60 || raw == 70 || raw == 80 || raw == 90
    then CargoType.undefined
    else if raw == 11 || raw == 21 || raw == 41 || raw == 61 || raw == 71 || raw == 81 || raw == 91
    then CargoType.hazardous_category_a
    else if raw == 12 || raw == 22 || raw == 42 || raw == 62 || raw == 72 || raw == 82 || raw == 92
    then CargoType.hazardous_category_b
    else if raw == 13 || raw == 23 || raw == 43 || raw == 63 || raw == 73 || raw == 83 || raw == 93
    then CargoType.hazardous_category_c
    else if raw == 14 || raw == 24 || raw == 44 || raw == 64 || raw == 74 || raw == 84 || raw == 94
    then CargoType.hazardous_category_d
    else if raw == 15 || raw == 25 || raw == 45 || raw == 65 || raw == 75 || raw == 85 || raw == 95
    then CargoType.reserved5
    else if raw == 16 || raw == 26 || raw == 46 || raw == 66 || raw == 76 || raw == 86 || raw == 96
    then CargoType.reserved6
    else if raw == 17 || raw == 27 || raw == 47 || raw == 67 || raw == 77 || raw == 87 || raw == 97
    then CargoType.reserved7
    else if raw == 18 || raw == 28 || raw == 48 || raw == 68 || raw == 78 || raw == 88 || raw == 98
    then CargoType.reserved8
    else if raw == 19 || raw == 29 || raw == 49 || raw == 69 || raw == 79 || raw == 89 || raw == 99
    then CargoType.reserved9
    else CargoType.undefined

-- `*self as u8`.
pub cargo_type_value : CargoType → ℕ
cargo_type_value CargoType.undefined = 10
cargo_type_value CargoType.hazardous_category_a = 11
cargo_type_value CargoType.hazardous_category_b = 12
cargo_type_value CargoType.hazardous_category_c = 13
cargo_type_value CargoType.hazardous_category_d = 14
cargo_type_value CargoType.reserved5 = 15
cargo_type_value CargoType.reserved6 = 16
cargo_type_value CargoType.reserved7 = 17
cargo_type_value CargoType.reserved8 = 18
cargo_type_value CargoType.reserved9 = 19

unfoldable pub position_fix_type : ℕ → PositionFixType
position_fix_type raw =
    if raw == 0
    then PositionFixType.undefined
    else if raw == 1
    then PositionFixType.gps
    else if raw == 2
    then PositionFixType.glonass
    else if raw == 3
    then PositionFixType.gps_glonass
    else if raw == 4
    then PositionFixType.loran_c
    else if raw == 5
    then PositionFixType.chayka
    else if raw == 6
    then PositionFixType.integrated_navigation_system
    else if raw == 7
    then PositionFixType.surveyed
    else if raw == 8
    then PositionFixType.galileo
    else PositionFixType.undefined

-- `*self as u8`.
pub position_fix_type_value : PositionFixType → ℕ
position_fix_type_value PositionFixType.undefined = 0
position_fix_type_value PositionFixType.gps = 1
position_fix_type_value PositionFixType.glonass = 2
position_fix_type_value PositionFixType.gps_glonass = 3
position_fix_type_value PositionFixType.loran_c = 4
position_fix_type_value PositionFixType.chayka = 5
position_fix_type_value PositionFixType.integrated_navigation_system = 6
position_fix_type_value PositionFixType.surveyed = 7
position_fix_type_value PositionFixType.galileo = 8
