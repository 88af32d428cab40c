-- ===== src/Events.antt =====
-- Publishing: libs/event-contracts and apps/api/src/modules/platform-events.
pub mod Envelope
pub mod Message
pub mod Ingest
pub mod Bus
pub mod Forwarding
pub mod Streams
