-- ===== src/Notifier.antt =====
-- src/omegahive/notifier: the service that pages about events and sends a daily heartbeat.
pub mod Triggers
pub mod Daily
pub mod Attention
pub mod Heartbeat
pub mod Cursor
pub mod Service
pub mod Beat
pub mod Delivery
pub mod Draining
pub mod Files
pub mod Tallies
mod Tests
