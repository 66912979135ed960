-- ===== src/Capture/Pcapng.antt =====
-- crates/usbscope-capture/src/pcapng.rs and pcapng_read.rs: captures in the pcapng format.
pub mod Writer
pub mod Reader
pub mod Packets
pub mod Blocks
pub mod Total
pub mod Sound
pub mod Delivered
pub mod Frames
pub mod Header
pub mod Records
pub mod Packed
pub mod Layout
pub mod Written
pub mod Validity
pub mod RoundTrip
pub mod Telling
pub mod Retelling
