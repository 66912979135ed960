-- ===== src/Main.antt =====
-- src/main.rs: the capture loop.
pub mod Consume
pub mod Latency
pub mod Limits
pub mod Losses
pub mod End
pub mod Replay
