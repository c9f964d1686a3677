-- ===== src/Automation.antt =====
-- The rules under which a task is approved without a person:
-- backend/app/services/ai_automation_service.py over backend/app/db/models/ai_automation.py.
pub mod Model
pub mod Policy
