-- ===== src/Workflow.antt =====
-- The workflow engine: definitions, runs and their driver.
pub mod Dag
pub mod Definition
pub mod Model
pub mod Engine
pub mod Service
mod Samples
