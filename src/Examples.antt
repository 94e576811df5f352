-- ===== src/Examples.antt =====
-- A deployment with one two-step Recipe, and the theorems at its runs.
pub mod Sample
pub mod Rows
pub mod Witnesses
pub mod Rounds
pub mod Files
pub mod ConfigFiles
pub mod Domains
pub mod Calls
pub mod Deployment
pub mod Driving
