-- ===== src/Live.antt =====
-- src/live.rs: the records that are drained from the ring, up to the events that are delivered.
pub mod Drain
pub mod Census
pub mod Items
pub mod Filling
pub mod Building
pub mod Ending
pub mod Arrival
pub mod Outcome
pub mod Framing
pub mod Delivery
pub mod Archiving
pub mod Replay
pub mod Measured
pub mod Observation
