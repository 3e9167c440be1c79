-- ===== src/Retrieval.antt =====
-- retrieval: which memories a reader may see.
pub mod Contracts
pub mod Eligibility
pub mod Authority
