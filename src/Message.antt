-- ===== src/Message.antt =====
-- lib.rs: the result of a parse. `F` stands for f64, `T` for chrono's `DateTime<Utc>` and `G` for
-- the results of the GNSS sentences, which share the constructor `gnss`.
use nmea_parser.Ais.Data.{VesselDynamicData, VesselStaticData}
use nmea_parser.Ais.Messages.{
  BaseStationReport, BinaryAddressedMessage, StandardSarAircraftPositionReport, UtcDateInquiry,
  AddressedSafetyRelatedMessage, SafetyRelatedAcknowledgement, SafetyRelatedBroadcastMessage,
  Interrogation, AssignmentModeCommand, DgnssBroadcastBinaryMessage, DataLinkManagementMessage,
  AidToNavigationReport, ChannelManagement, GroupAssignmentCommand, SingleSlotBinaryMessage,
  MultipleSlotBinaryMessage,
}

pub data ParsedMessage (F T G : Type 0) : Type 0 where
  incomplete : ParsedMessage F T G
  vessel_dynamic_data : VesselDynamicData F → ParsedMessage F T G
  vessel_static_data : VesselStaticData T → ParsedMessage F T G
  base_station_report : BaseStationReport F T → ParsedMessage F T G
  binary_addressed_message : BinaryAddressedMessage → ParsedMessage F T G
  standard_sar_aircraft_position_report : StandardSarAircraftPositionReport F → ParsedMessage F T G
  utc_date_inquiry : UtcDateInquiry → ParsedMessage F T G
  utc_date_response : BaseStationReport F T → ParsedMessage F T G
  addressed_safety_related_message : AddressedSafetyRelatedMessage → ParsedMessage F T G
  safety_related_acknowledgement : SafetyRelatedAcknowledgement → ParsedMessage F T G
  safety_related_broadcast_message : SafetyRelatedBroadcastMessage → ParsedMessage F T G
  interrogation : Interrogation → ParsedMessage F T G
  assignment_mode_command : AssignmentModeCommand → ParsedMessage F T G
  dgnss_broadcast_binary_message : DgnssBroadcastBinaryMessage F → ParsedMessage F T G
  data_link_management_message : DataLinkManagementMessage → ParsedMessage F T G
  aid_to_navigation_report : AidToNavigationReport F → ParsedMessage F T G
  channel_management : ChannelManagement F → ParsedMessage F T G
  group_assignment_command : GroupAssignmentCommand F → ParsedMessage F T G
  single_slot_binary_message : SingleSlotBinaryMessage → ParsedMessage F T G
  multiple_slot_binary_message : MultipleSlotBinaryMessage → ParsedMessage F T G
  gnss : G → ParsedMessage F T G
