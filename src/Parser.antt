-- ===== src/Parser.antt =====
-- lib.rs: `NmeaParser::parse_sentence`.
pub mod Frame
pub mod Talker
pub mod Vdm
pub mod Dispatch
