-- ===== src/Capture/Reassembler.antt =====
-- crates/usbscope-capture/src/lib.rs: the reassembly of events from records. An error ends the
-- capture: no caller uses the reassembler after it, so an error carries no state.
pub mod State
pub mod Data
pub mod Merge
pub mod Fragments
pub mod End
pub mod Covers
pub mod Maps
pub mod Push
pub mod Outcome
pub mod Delivery
pub mod Track
