-- ===== src/Orchestration.antt =====
-- saas/backend/app/orchestration.py: the backend that runs tenant jobs as remote jobs.
pub mod States
pub mod Submission
pub mod Lifecycle
pub mod Preparation
pub mod Resume
pub mod Mock
