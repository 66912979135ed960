-- ===== src/Common.antt =====
-- crates/usbscope-common/src/lib.rs: the types and constants that kernel and userspace share.
pub mod Meta
pub mod KernelPredicate
pub mod Wire
