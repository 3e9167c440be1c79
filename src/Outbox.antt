-- ===== src/Outbox.antt =====
-- storage/outbox.py and storage/outbox_worker.py: the queue of side effects that commands leave in
-- the database, and the leases under which workers take its jobs.
pub mod Job
pub mod References
pub mod Enqueue
pub mod Select
pub mod Claim
pub mod Lease
pub mod History
pub mod Rows
pub mod Selections
pub mod Advance
pub mod Invariant
pub mod Persistence
pub mod Guards
pub mod Distinct
pub mod Batch
pub mod Attempts
pub mod Progress
pub mod Framing
pub mod Deduplication
