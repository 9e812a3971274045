-- ===== src/Tests.antt =====
-- Concrete inputs of the operations of saas/backend/app, and their theorems at these inputs.
mod Samples
mod Store
mod Assets
mod Auth
mod Orchestration
mod Analytics
mod CustomTraining
mod Campaign
mod Runs
mod Selection
