-- ===== src/Events.antt =====
-- The events package: the envelope, the payload schema and the log.
pub mod Json
pub mod Envelope
pub mod Types
pub mod Log
