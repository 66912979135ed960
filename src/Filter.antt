-- ===== src/Filter.antt =====
-- crates/usbscope-capture/src/filter.rs: the filter language.
pub mod Truth
pub mod Syntax
pub mod Search
pub mod Evaluate
pub mod Pushdown
pub mod Tokens
pub mod Numbers
pub mod Balance
pub mod Parser
pub mod Latency
