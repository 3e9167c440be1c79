-- ===== src/Tests.antt =====
-- Runs of the definitions on concrete inputs, and the theorems at them.
pub mod Samples
pub mod Platforms
pub mod FoldRuns
pub mod DomainRuns
pub mod EventRuns
pub mod TenantRuns
pub mod OutboxRuns
pub mod PolicyRuns
pub mod RetrievalRuns
