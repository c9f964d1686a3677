-- ===== src/Approval.antt =====
-- Approvals and what they release: backend/app/services/approval_service.py.
pub mod Model
pub mod Service
pub mod Row
pub mod Decided
mod Samples
pub mod Requests
pub mod Linked
pub mod Traces
pub mod Rules
