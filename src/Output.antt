-- ===== src/Output.antt =====
-- src/: what the command does with the events that it selects.
pub mod IsoStats
pub mod Rotation
pub mod Pcapng
