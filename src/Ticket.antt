-- ===== src/Ticket.antt =====
-- backend/app/services/ticket_service.py over the rows of backend/app/db/models/ticket.py.
pub mod Model
pub mod Service
pub mod Refs
pub mod After
pub mod Lifecycle
pub mod Requests
pub mod Stamps
pub mod Traces
pub mod References
mod Samples
