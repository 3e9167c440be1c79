-- ===== src/Domain.antt =====
-- kivra_memory/domain
pub mod Enums
pub mod Operations
pub mod Identifiers
pub mod Constraints
pub mod CanonicalJson
