-- ===== src/Kernel.antt =====
-- crates/usbscope-ebpf/src/main.rs: the programs that run in the kernel.
pub mod Prefilter
pub mod Machine
pub mod Urb
pub mod Copy
pub mod Scatter
pub mod Iso
pub mod Emit
pub mod Programs
pub mod Quiet
pub mod Accounting
pub mod Delivery
