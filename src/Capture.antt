-- ===== src/Capture.antt =====
-- crates/usbscope-capture/src: events, their reassembly and their filters.
pub mod Event
pub mod Decode
pub mod Ranges
pub mod Reassembler
pub mod Archive
pub mod Submissions
pub mod Pcapng
