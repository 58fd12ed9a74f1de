-- ===== src/LatLon.antt =====
-- lib.rs: the `LatLon` trait, with its implementations in src/ais and src/gnss.
use nmea_parser.Common.{Option, none}
use nmea_parser.Ais.Data.{VesselDynamicData}
use nmea_parser.Ais.Messages.{
  BaseStationReport, BinaryAddressedMessage, StandardSarAircraftPositionReport,
  AidToNavigationReport,
}
use nmea_parser.Gnss.Data.{GgaData, RmcData, GnsData, GllData}

record LatLon (A F : Type 0) : Type 0 where
  latitude : A → Option F
  longitude : A → Option F

module _ {F : Type 0} where
  instance abbrev vessel_dynamic_data : LatLon (VesselDynamicData F) F
  vessel_dynamic_data = record { latitude = λ d. d.latitude; longitude = λ d. d.longitude }

  instance abbrev binary_addressed_message : LatLon BinaryAddressedMessage F
  binary_addressed_message = record { latitude = λ d. none; longitude = λ d. none }

  instance abbrev sar_aircraft_report : LatLon (StandardSarAircraftPositionReport F) F
  sar_aircraft_report = record { latitude = λ d. d.latitude; longitude = λ d. d.longitude }

  instance abbrev aid_to_navigation_report : LatLon (AidToNavigationReport F) F
  aid_to_navigation_report = record { latitude = λ d. d.latitude; longitude = λ d. d.longitude }

module _ {F T : Type 0} where
  instance abbrev base_station_report : LatLon (BaseStationReport F T) F
  base_station_report = record { latitude = λ d. d.latitude; longitude = λ d. d.longitude }

  instance abbrev gga_data : LatLon (GgaData F T) F
  gga_data = record { latitude = λ d. d.latitude; longitude = λ d. d.longitude }

  instance abbrev rmc_data : LatLon (RmcData F T) F
  rmc_data = record { latitude = λ d. d.latitude; longitude = λ d. d.longitude }

  instance abbrev gns_data : LatLon (GnsData F T) F
  gns_data = record { latitude = λ d. d.latitude; longitude = λ d. d.longitude }

  instance abbrev gll_data : LatLon (GllData F T) F
  gll_data = record { latitude = λ d. d.latitude; longitude = λ d. d.longitude }
