-- ===== src/Workflow/Service.antt =====
-- The operations of backend/app/services/workflow_service.py on workflows, their versions and runs.
pub mod Model
pub mod Versions
pub mod Runs
pub mod Callback
pub mod Requests
pub mod History
pub mod After
pub mod Rows
pub mod Stored
pub mod Edits
pub mod Kept
pub mod RunsKept
pub mod Traces
pub mod Once
pub mod Cancelled
pub mod Again
pub mod Retried
mod Samples
