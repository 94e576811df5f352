-- ===== src/Refinement.antt =====
-- The operations of server/orchestrator.py and the routes, as transactions of the lifecycle.
pub mod Parts
pub mod Claim
pub mod Round
pub mod Stuck
pub mod Tick
pub mod Drain
pub mod Settle
pub mod Apply
pub mod Routes
pub mod Create
pub mod Replay
