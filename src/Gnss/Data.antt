-- ===== src/Gnss/Data.antt =====
-- gnss/: the structures and enumerations of the GNSS sentences. `F` stands for f64, `S` for f32, `T`
-- for chrono's `DateTime<Utc>` and `Z` for its `FixedOffset`.
use nmea_parser.Common.{ℕ, Bool, Option, List}
use nmea_parser.Text.{Text}
use nmea_parser.Parser.Talker.{NavigationSystem}

pub data FaaMode : Type 0 where
  autonomous differential estimated not_valid simulator : FaaMode

pub data GgaQualityIndicator : Type 0 where
  invalid gps_fix d_gps_fix pps_fix real_time_kinematic real_time_kinematic_float dead_reckoning
        manual_input_mode simulation_mode :
      GgaQualityIndicator

pub data GnsModeIndicator : Type 0 where
  invalid autonomous differential precise real_time_kinematic real_time_kinematic_float
        dead_reckoning manual_input_mode simulation_mode :
      GnsModeIndicator

pub data GsaFixMode : Type 0 where
  not_available fix2_d fix3_d : GsaFixMode

pub record GgaData (F T : Type 0) : Type 0 where
  pub source : NavigationSystem
  pub timestamp : Option T
  pub latitude : Option F
  pub longitude : Option F
  pub quality : GgaQualityIndicator
  pub satellite_count : Option ℕ
  pub hdop : Option F
  pub altitude : Option F
  pub geoid_separation : Option F
  pub age_of_dgps : Option F
  pub ref_station_id : Option ℕ

pub record RmcData (F T : Type 0) : Type 0 where
  pub source : NavigationSystem
  pub timestamp : Option T
  pub status_active : Option Bool
  pub latitude : Option F
  pub longitude : Option F
  pub sog_knots : Option F
  pub bearing : Option F
  pub variation : Option F

pub record GnsData (F T : Type 0) : Type 0 where
  pub source : NavigationSystem
  pub timestamp : Option T
  pub latitude : Option F
  pub longitude : Option F
  pub gps_mode : GnsModeIndicator
  pub glonass_mode : GnsModeIndicator
  pub other_modes : List GnsModeIndicator
  pub satellite_count : Option ℕ
  pub hdop : Option F
  pub altitude : Option F
  pub geoid_separation : Option F
  pub age_of_dgps : Option F
  pub ref_station_id : Option ℕ

pub record GsaData (F : Type 0) : Type 0 where
  pub source : NavigationSystem
  pub mode1_automatic : Option Bool
  pub mode2_3d : Option GsaFixMode
  pub prn_numbers : List ℕ
  pub pdop : Option F
  pub hdop : Option F
  pub vdop : Option F

pub record GsvData (S : Type 0) : Type 0 where
  pub source : NavigationSystem
  pub prn_number : ℕ
  pub elevation : Option S
  pub azimuth : Option S
  pub snr : Option S

pub record VtgData (F : Type 0) : Type 0 where
  pub source : NavigationSystem
  pub cog_true : Option F
  pub cog_magnetic : Option F
  pub sog_knots : Option F
  pub sog_kph : Option F
  pub faa_mode : Option FaaMode

pub record GllData (F T : Type 0) : Type 0 where
  pub source : NavigationSystem
  pub latitude : Option F
  pub longitude : Option F
  pub timestamp : Option T
  pub data_valid : Option Bool
  pub faa_mode : Option FaaMode

pub record AlmData : Type 0 where
  pub source : NavigationSystem
  pub prn : Option ℕ
  pub week_number : Option ℕ
  pub health_bits : Option ℕ
  pub eccentricity : Option ℕ
  pub reference_time : Option ℕ
  pub sigma : Option ℕ
  pub omega_dot : Option ℕ
  pub root_a : Option ℕ
  pub omega_ : Option ℕ
  pub omega_o : Option ℕ
  pub mo : Option ℕ
  pub af0 : Option ℕ
  pub af1 : Option ℕ

pub record DtmData (F : Type 0) : Type 0 where
  pub source : NavigationSystem
  pub datum_id : Option Text
  pub datum_sub_id : Option Text
  pub lat_offset : Option F
  pub lon_offset : Option F
  pub alt_offset : Option F
  pub ref_datum_id : Option Text

pub record MssData (F : Type 0) : Type 0 where
  pub source : NavigationSystem
  pub ss : Option ℕ
  pub snr : Option ℕ
  pub frequency : Option F
  pub bit_rate : Option ℕ
  pub channel : Option ℕ

pub record StnData : Type 0 where
  pub source : NavigationSystem
  pub talker_id : Option ℕ

pub record VbwData (F : Type 0) : Type 0 where
  pub source : NavigationSystem
  pub lon_water_speed_knots : Option F
  pub tr_water_speed_knots : Option F
  pub water_speed_valid : Option Bool
  pub lon_ground_speed_knots : Option F
  pub tr_ground_speed_knots : Option F
  pub ground_speed_valid : Option Bool

pub record ZdaData (T Z : Type 0) : Type 0 where
  pub source : NavigationSystem
  pub timestamp_utc : Option T
  pub timezone_local : Option Z

pub record DptData (F : Type 0) : Type 0 where
  pub depth_relative_to_transducer : Option F
  pub transducer_offset : Option F

pub record DbsData (F : Type 0) : Type 0 where
  pub depth_meters : Option F
  pub depth_feet : Option F
  pub depth_fathoms : Option F

pub record MtwData (F : Type 0) : Type 0 where
  pub temperature : Option F

pub record VhwData (F : Type 0) : Type 0 where
  pub heading_true : Option F
  pub heading_magnetic : Option F
  pub speed_through_water_knots : Option F
  pub speed_through_water_kmh : Option F

pub record HdtData (F : Type 0) : Type 0 where
  pub heading_true : Option F

pub record MwvData (F : Type 0) : Type 0 where
  pub wind_angle : Option F
  pub relative : Option Bool
  pub wind_speed_knots : Option F
  pub wind_speed_kmh : Option F

-- The variants of `ParsedMessage` that the GNSS sentences give.
pub data GnssMessage (F S T Z : Type 0) : Type 0 where
  gga : GgaData F T → GnssMessage F S T Z
  rmc : RmcData F T → GnssMessage F S T Z
  gns : GnsData F T → GnssMessage F S T Z
  gsa : GsaData F → GnssMessage F S T Z
  gsv : List (GsvData S) → GnssMessage F S T Z
  vtg : VtgData F → GnssMessage F S T Z
  gll : GllData F T → GnssMessage F S T Z
  alm : AlmData → GnssMessage F S T Z
  dtm : DtmData F → GnssMessage F S T Z
  mss : MssData F → GnssMessage F S T Z
  stn : StnData → GnssMessage F S T Z
  vbw : VbwData F → GnssMessage F S T Z
  zda : ZdaData T Z → GnssMessage F S T Z
  dpt : DptData F → GnssMessage F S T Z
  dbs : DbsData F → GnssMessage F S T Z
  mtw : MtwData F → GnssMessage F S T Z
  vhw : VhwData F → GnssMessage F S T Z
  hdt : HdtData F → GnssMessage F S T Z
  mwv : MwvData F → GnssMessage F S T Z
