-- ===== src/Events.antt =====
-- domain/events.py: after-images, payloads and the event envelope.
pub mod States
pub mod Shape
pub mod Payloads
pub mod Envelope
pub mod Hashes
