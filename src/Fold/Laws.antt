-- ===== src/Fold/Laws.antt =====
-- What the fold guarantees of every event and of every stream of events.
pub mod Change
pub mod Stream
pub mod Evidence
