-- ===== src/Gnss.antt =====
-- gnss/: the handlers of GNSS sentences.
pub mod Libraries
pub mod Data
pub mod Fields
pub mod Codes
pub mod Times
pub mod Coordinates
pub mod Gsv
pub mod Gga
pub mod Rmc
pub mod Gns
pub mod Gsa
pub mod Vtg
pub mod Gll
pub mod Alm
pub mod Dtm
pub mod Mss
pub mod Stn
pub mod Vbw
pub mod Zda
pub mod Dpt
pub mod Dbs
pub mod Mtw
pub mod Vhw
pub mod Hdt
pub mod Mwv
pub mod Dispatch
pub mod Steps
pub mod Total
pub mod Display
