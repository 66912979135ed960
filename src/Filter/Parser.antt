-- ===== src/Filter/Parser.antt =====
-- crates/usbscope-capture/src/filter.rs: `Parser` and `Filter::parse`.
pub mod Predicates
pub mod Grammar
pub mod Progress
pub mod Total
