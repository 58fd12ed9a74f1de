-- ===== src/Ais/Types.antt =====
-- ais/mod.rs: the enumerations of the AIS messages, with their numeric codes.

pub data Station : Type 0 where
  base_station dependent_ais_base_station mobile_station aid_to_navigation_station
        ais_receiving_station limited_base_station ais_transmitting_station repeater_station other :
      Station

pub data AisClass : Type 0 where
  unknown class_a class_b : AisClass

pub data NavigationStatus : Type 0 where
  under_way_using_engine at_anchor not_under_command restricted_manoeuverability
        constrained_by_draught moored aground engaged_in_fishing under_way_sailing reserved9
        reserved10 reserved11 reserved12 reserved13 ais_sart_is_active not_defined :
      NavigationStatus

pub data PositioningSystemMeta : Type 0 where
  operative manual_input_mode dead_reckoning_mode inoperative : PositioningSystemMeta

pub data RotDirection : Type 0 where
  port center starboard : RotDirection

pub data ShipType : Type 0 where
  not_available reserved1 wing_in_ground fishing towing towing_long dredging_or_underwater_ops
        diving_ops military_ops sailing pleasure_craft reserved38 reserved39 high_speed_craft pilot
        search_and_rescue tug port_tender anti_pollution_equipment law_enforcement spare_local56
        spare_local57 medical_transport noncombatant passenger cargo tanker other :
      ShipType

pub data CargoType : Type 0 where
  undefined hazardous_category_a hazardous_category_b hazardous_category_c hazardous_category_d
        reserved5 reserved6 reserved7 reserved8 reserved9 :
      CargoType

pub data PositionFixType : Type 0 where
  undefined gps glonass gps_glonass loran_c chayka integrated_navigation_system surveyed galileo :
      PositionFixType
