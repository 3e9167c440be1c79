-- ===== src/Policy.antt =====
-- policy: which nominated memories are kept, for how long, and when a candidate is promoted.
pub mod Vocabulary
pub mod Contracts
pub mod Evaluator
pub mod Lifecycle
pub mod Profile
pub mod Rules
pub mod Total
pub mod Kept
pub mod Observed
pub mod Promotion
pub mod Signals
