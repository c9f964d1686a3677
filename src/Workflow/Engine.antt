-- ===== src/Workflow/Engine.antt =====
-- backend/app/services/workflow_engine.py: one step of the driver of a run.
pub mod Verdict
pub mod Timeout
pub mod Port
pub mod Nodes
pub mod Advance
pub mod Step
pub mod Moves
mod Written
mod Advanced
pub mod Steps
pub mod Progress
pub mod Route
pub mod Grows
pub mod Order
pub mod Hang
pub mod Bounds
