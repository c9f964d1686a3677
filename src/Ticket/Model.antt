-- ===== src/Ticket/Model.antt =====
-- The rows of backend/app/db/models/ticket.py and the transition table of the service.
use lark_plat.Prelude.{ℕ, String, Bool, false, ◌||◌, Option, List, [], ◌∷◌, ◌==◌, nat_eq}
use lark_plat.Json.{Json}
use lark_plat.Table.{Table}

-- TICKET_STATUSES
pub data TicketStatus : Type 0 where
  create assign accept processing done close cancel : TicketStatus

-- the keys of TICKET_TRANSITIONS
pub data Action : Type 0 where
  assign accept process done close reopen cancel : Action

abbrev pub code : TicketStatus → ℕ
code TicketStatus.create = 0
code TicketStatus.assign = 1
code TicketStatus.accept = 2
code TicketStatus.processing = 3
code TicketStatus.done = 4
code TicketStatus.close = 5
code TicketStatus.cancel = 6

-- status in statuses
unfoldable pub status_in : TicketStatus → List TicketStatus → Bool
status_in s [] = false
status_in s (x ∷ xs) = code x == code s || status_in s xs

-- TICKET_TRANSITIONS[action][0]
unfoldable pub allowed_from : Action → List TicketStatus
allowed_from Action.assign = TicketStatus.create ∷ TicketStatus.assign ∷ []
allowed_from Action.accept = TicketStatus.assign ∷ []
allowed_from Action.process = TicketStatus.accept ∷ []
allowed_from Action.done = TicketStatus.processing ∷ []
allowed_from Action.close = TicketStatus.done ∷ []
allowed_from Action.reopen = TicketStatus.done ∷ TicketStatus.close ∷ []
allowed_from Action.cancel =
    TicketStatus.create ∷ TicketStatus.assign ∷ TicketStatus.accept ∷ TicketStatus.processing ∷ []

-- TICKET_TRANSITIONS[action][1]
unfoldable pub target : Action → TicketStatus
target Action.assign = TicketStatus.assign
target Action.accept = TicketStatus.accept
target Action.process = TicketStatus.processing
target Action.done = TicketStatus.done
target Action.close = TicketStatus.close
target Action.reopen = TicketStatus.processing
target Action.cancel = TicketStatus.cancel

-- TICKET_EDITABLE_STATUSES
abbrev pub editable_statuses : List TicketStatus
editable_statuses = TicketStatus.create ∷ TicketStatus.assign ∷ []

abbrev pub categories : List String
categories = "incident" ∷ "change" ∷ "request" ∷ "other" ∷ []

abbrev pub priorities : List String
priorities = "low" ∷ "medium" ∷ "high" ∷ "urgent" ∷ []

abbrev pub ref_types : List String
ref_types = "exec_task" ∷ "approval" ∷ "asset_host" ∷ "schedule" ∷ "kb_article" ∷ "script" ∷ []

-- TK-{day}-{serial}
pub record TicketNo : Type 0 where
  pub day : String
  pub serial : ℕ

pub record Ticket : Type 0 where
  pub ticket_no : TicketNo
  pub title : String
  pub category : String
  pub priority : String
  pub status : TicketStatus
  pub requester_id : Option ℕ
  pub assignee_id : Option ℕ
  pub description : String
  pub sla_due_at : Option ℕ
  pub resolved_at : Option ℕ
  pub closed_at : Option ℕ
  pub version : ℕ

pub record TicketRef : Type 0 where
  pub ticket_id : ℕ
  pub ref_type : String
  pub ref_id : ℕ
  pub created_by : Option ℕ

pub record TicketComment : Type 0 where
  pub ticket_id : ℕ
  pub author_id : ℕ
  pub content : String

pub record FilePackage : Type 0 where
  pub name : String
  pub total_size : ℕ
  pub created_by : ℕ

pub record TicketAttachment : Type 0 where
  pub ticket_id : ℕ
  pub file_id : ℕ
  pub filename : String
  pub size : ℕ
  pub uploaded_by : ℕ

-- `feature` is the value of the rule feature.ticket.
pub record TicketDb : Type 0 where
  pub feature : Option Json
  pub tickets : Table Ticket
  pub refs : Table TicketRef
  pub comments : Table TicketComment
  pub attachments : Table TicketAttachment
  pub packages : Table FilePackage
