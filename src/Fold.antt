-- ===== src/Fold.antt =====
-- domain/folding.py
pub mod State
pub mod Checks
pub mod Memories
pub mod Links
pub mod Conflicts
pub mod Visibility
pub mod Operations
pub mod Step
pub mod Frame
pub mod Change
pub mod Ceiling
pub mod Laws
pub mod Tenant
