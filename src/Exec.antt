-- ===== src/Exec.antt =====
-- Execution tasks: backend/app/services/exec_service.py and backend/app/tasks/exec_tasks.py.
pub mod Text
pub mod Model
pub mod Sensitive
pub mod Matches
pub mod Create
pub mod Hold
pub mod Cancel
pub mod Service
pub mod Dispatch
pub mod Orchestrator
pub mod Paired
pub mod PairedMoves
pub mod SoundRows
pub mod Sound
pub mod Kept
pub mod Held
pub mod Made
pub mod Decides
pub mod Acts
pub mod After
pub mod Traces
pub mod Stops
pub mod Folds
pub mod Blocked
mod Samples
