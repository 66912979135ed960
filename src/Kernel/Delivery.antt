-- ===== src/Kernel/Delivery.antt =====
-- crates/usbscope-ebpf/src/main.rs and src/live.rs: what the records of an observation deliver.
pub mod Payload
pub mod Chunks
pub mod Rounds
pub mod Copies
pub mod Records
pub mod Readings
pub mod Reports
