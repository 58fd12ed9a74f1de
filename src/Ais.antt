-- ===== src/Ais.antt =====
-- ais/: the AIS messages.
pub mod Types
pub mod Codes
pub mod Data
pub mod Country
pub mod Display
pub mod Messages
pub mod Fields
pub mod Vdm
