-- ===== src/Orchestrator.antt =====
-- server/orchestrator.py, one module for each part of it.
pub mod Status
pub mod Queue
pub mod Spec
pub mod Edits
pub mod Claim
pub mod Apply
pub mod Stuck
