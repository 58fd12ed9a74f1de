-- ===== src/Runs.antt =====
-- The definitions run on concrete sentences, with symbolic floating-point numbers and a calendar of
-- months with 31 days, and the theorems applied at concrete inputs.
pub mod Toys
pub mod Sentences
pub mod Bytes
pub mod Reports
pub mod Satellites
pub mod Fixes
pub mod Gnss
pub mod Histories
pub mod Streams
pub mod Vessels
pub mod Voyages
