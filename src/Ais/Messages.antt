-- ===== src/Ais/Messages.antt =====
-- ais/: the structures of the single message types. `F` stands for f64 and `T` for chrono's
-- `DateTime<Utc>`.
use nmea_parser.Common.{ℕ, Bool, Option}
use nmea_parser.Text.{Text}
use nmea_parser.Bits.{Bits}
use nmea_parser.Ais.Types.{Station, ShipType, CargoType, PositionFixType}

pub data InterrogationCase : Type 0 where
  case1 case2 case3 case4 : InterrogationCase

pub data NavAidType : Type 0 where
  not_specified reference_point racon fixed_structure reserved4 light_without_sectors
        light_with_sectors leading_light_front leading_light_rear beacon_cardinal_north
        beacon_cardinal_east beacon_cardinal_south beacon_cardinal_west beacon_lateral_port
        beacon_lateral_starboard beacon_lateral_preferred_channel_port
        beacon_lateral_preferred_channel_starboard beacon_isolated_danger beacon_safe_water
        beacon_special_mark cardinal_mark_north cardinal_mark_east cardinal_mark_south
        cardinal_mark_west port_hand_mark starboard_hand_mark preferred_channel_port
        preferred_channel_starboard isolated_danger safe_water special_mark light_vessel :
      NavAidType

pub data StationType : Type 0 where
  all_types reserved1 all_types_of_class_b_mobile sar_airborne_mobile aid_to_navigation
        class_b_ship_borne_mobile regional6 regional7 regional8 regional9 reserved10 reserved11
        reserved12 reserved13 reserved14 reserved15 :
      StationType

pub data StationInterval : Type 0 where
  autonomous time10min time6min time3min time1min time30sec time15sec time10sec time5sec
        next_shorter_reporting_inverval next_longer_reporting_inverval reserved11 reserved12
        reserved13 reserved14 reserved15 :
      StationInterval

pub record BaseStationReport (F T : Type 0) : Type 0 where
  pub own_vessel : Bool
  pub station : Station
  pub mmsi : ℕ
  pub timestamp : Option T
  pub high_position_accuracy : Bool
  pub latitude : Option F
  pub longitude : Option F
  pub position_fix_type : Option PositionFixType
  pub raim_flag : Bool
  pub radio_status : ℕ

pub record BinaryAddressedMessage : Type 0 where
  pub own_vessel : Bool
  pub station : Station
  pub mmsi : ℕ
  pub sequence_number : ℕ
  pub destination_mmsi : ℕ
  pub retransmit_flag : Bool
  pub dac : ℕ
  pub fid : ℕ

pub record StandardSarAircraftPositionReport (F : Type 0) : Type 0 where
  pub own_vessel : Bool
  pub station : Station
  pub mmsi : ℕ
  pub altitude : Option ℕ
  pub sog_knots : Option ℕ
  pub high_position_accuracy : Bool
  pub latitude : Option F
  pub longitude : Option F
  pub cog : Option F
  pub timestamp_seconds : ℕ
  pub regional : ℕ
  pub dte : Bool
  pub assigned : Bool
  pub raim_flag : Bool
  pub radio_status : ℕ

pub record UtcDateInquiry : Type 0 where
  pub own_vessel : Bool
  pub station : Station
  pub source_mmsi : ℕ
  pub destination_mmsi : ℕ

pub record AddressedSafetyRelatedMessage : Type 0 where
  pub own_vessel : Bool
  pub station : Station
  pub source_mmsi : ℕ
  pub sequence_number : ℕ
  pub destination_mmsi : ℕ
  pub retransmit_flag : Bool
  pub text : Text

pub record SafetyRelatedAcknowledgement : Type 0 where
  pub own_vessel : Bool
  pub station : Station
  pub mmsi : ℕ
  pub mmsi1 : ℕ
  pub mmsi1_seq : ℕ
  pub mmsi2 : ℕ
  pub mmsi2_seq : ℕ
  pub mmsi3 : ℕ
  pub mmsi3_seq : ℕ
  pub mmsi4 : ℕ
  pub mmsi4_seq : ℕ

pub record SafetyRelatedBroadcastMessage : Type 0 where
  pub own_vessel : Bool
  pub station : Station
  pub mmsi : ℕ
  pub text : Text

pub record Interrogation : Type 0 where
  pub own_vessel : Bool
  pub station : Station
  pub case : InterrogationCase
  pub mmsi : ℕ
  pub mmsi1 : ℕ
  pub type1_1 : ℕ
  pub offset1_1 : ℕ
  pub type1_2 : Option ℕ
  pub offset1_2 : Option ℕ
  pub mmsi2 : Option ℕ
  pub type2_1 : Option ℕ
  pub offset2_1 : Option ℕ

pub record AssignmentModeCommand : Type 0 where
  pub own_vessel : Bool
  pub station : Station
  pub assigned_for_single_station : Bool
  pub mmsi : ℕ
  pub mmsi1 : ℕ
  pub offset1 : ℕ
  pub increment1 : ℕ
  pub mmsi2 : Option ℕ
  pub offset2 : Option ℕ
  pub increment2 : Option ℕ

pub record DgnssBroadcastBinaryMessage (F : Type 0) : Type 0 where
  pub own_vessel : Bool
  pub station : Station
  pub mmsi : ℕ
  pub latitude : Option F
  pub longitude : Option F
  pub payload : Bits

pub record DataLinkManagementMessage : Type 0 where
  pub own_vessel : Bool
  pub station : Station
  pub case : InterrogationCase
  pub mmsi : ℕ
  pub offset1 : ℕ
  pub number1 : ℕ
  pub timeout1 : ℕ
  pub increment1 : ℕ
  pub offset2 : ℕ
  pub number2 : ℕ
  pub timeout2 : ℕ
  pub increment2 : ℕ
  pub offset3 : ℕ
  pub number3 : ℕ
  pub timeout3 : ℕ
  pub increment3 : ℕ
  pub offset4 : ℕ
  pub number4 : ℕ
  pub timeout4 : ℕ
  pub increment4 : ℕ

pub record AidToNavigationReport (F : Type 0) : Type 0 where
  pub own_vessel : Bool
  pub station : Station
  pub mmsi : ℕ
  pub aid_type : NavAidType
  pub name : Text
  pub high_position_accuracy : Bool
  pub latitude : Option F
  pub longitude : Option F
  pub dimension_to_bow : Option ℕ
  pub dimension_to_stern : Option ℕ
  pub dimension_to_port : Option ℕ
  pub dimension_to_starboard : Option ℕ
  pub position_fix_type : Option PositionFixType
  pub timestamp_seconds : ℕ
  pub off_position_indicator : Bool
  pub regional : ℕ
  pub raim_flag : Bool
  pub virtual_aid_flag : Bool
  pub assigned_mode_flag : Bool

pub record ChannelManagement (F : Type 0) : Type 0 where
  pub own_vessel : Bool
  pub station : Station
  pub mmsi : ℕ
  pub channel_a : ℕ
  pub channel_b : ℕ
  pub txrx : ℕ
  pub power : Bool
  pub ne_lat : Option F
  pub ne_lon : Option F
  pub sw_lat : Option F
  pub sw_lon : Option F
  pub dest1_mmsi : Option ℕ
  pub dest2_mmsi : Option ℕ
  pub addressed : Bool
  pub channel_a_band : Bool
  pub channel_b_band : Bool
  pub zonesize : ℕ

pub record GroupAssignmentCommand (F : Type 0) : Type 0 where
  pub own_vessel : Bool
  pub station : Station
  pub mmsi : ℕ
  pub ne_lat : Option F
  pub ne_lon : Option F
  pub sw_lat : Option F
  pub sw_lon : Option F
  pub station_type : StationType
  pub ship_type : ShipType
  pub cargo_type : CargoType
  pub txrx : ℕ
  pub interval : StationInterval
  pub quiet : Option ℕ

pub record SingleSlotBinaryMessage : Type 0 where
  pub own_vessel : Bool
  pub station : Station
  pub mmsi : ℕ
  pub dest_mmsi : Option ℕ
  pub app_id : Option ℕ
  pub data_bits : Bits

pub record MultipleSlotBinaryMessage : Type 0 where
  pub own_vessel : Bool
  pub station : Station
  pub mmsi : ℕ
  pub dest_mmsi : Option ℕ
  pub app_id : Option ℕ
  pub data_bits : Bits
  pub radio : ℕ
