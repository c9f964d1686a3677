-- ===== src/Statuses.antt =====
-- The status columns of exec_task (backend/app/db/models/exec.py) and approval_request
-- (backend/app/db/models/schedule.py), with the spellings that the services test for.

pub data TaskStatus : Type 0 where
  created awaiting_approval approved running pending success partial : TaskStatus
  failed timed_out canceled cancelled : TaskStatus

pub data ApprovalStatus : Type 0 where
  pending approved rejected canceled cancelled : ApprovalStatus
