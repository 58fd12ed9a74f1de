-- ===== src/Ais/Vdm.antt =====
-- ais/vdm_*.rs: the handlers of the message types, a module for each file.
pub mod T1t2t3
pub mod T18
pub mod T19
pub mod T27
pub mod T9
pub mod T4
pub mod T11
pub mod T6
pub mod T10
pub mod T12
pub mod T13
pub mod T14
pub mod T15
pub mod T16
pub mod T17
pub mod T20
pub mod T21
pub mod T22
pub mod T23
pub mod T25
pub mod T26
pub mod T24
pub mod T5
pub mod Slices
pub mod Total
