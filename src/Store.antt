-- ===== src/Store.antt =====
-- saas/backend/app/store.py over the schema of saas/backend/app/db.py.
pub mod Database
pub mod Monad
pub mod Jobs
pub mod Preparations
pub mod Starts
pub mod Robots
pub mod Setups
pub mod Auth
