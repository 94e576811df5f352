-- ===== src/Requests.antt =====
-- server/routes/requests.py, one module for each group of routes.
pub mod Read
pub mod Create
pub mod Report
pub mod Halt
