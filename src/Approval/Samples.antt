-- ===== src/Approval/Samples.antt =====
-- The theorems on approvals at a concrete database.
use lark_plat.Prelude.{
  ℕ, ◌==◌, nat_eq, if◌then◌else◌, ◌≡◌, refl, String, true, List, [], ◌∷◌, none, some,
}
use lark_plat.Errors.{conflict, not_found, Result, ok, err}
use lark_plat.Statuses.{TaskStatus, ApprovalStatus}
use lark_plat.Session.{CurrentUser}
use lark_plat.Table.{Table, find, put, add}
use lark_plat.Approval.Model.{Approval, SessionStatus, ApprovalDb}
use lark_plat.Approval.Service.{
  Decision, decide, decide_row, update_approval, update_task, run_task, approve_exec,
  approve_linkages,
}
use lark_plat.Approval.Decided.{decide-once}
use lark_plat.Json.{null}
use lark_plat.Session.{request}
use lark_plat.Approval.Rules.{ApprovalRule, delete_rule, delete_rule-find}
use lark_plat.Approval.Linked.{reject-terminal}
use lark_plat.Approval.Traces.{Call, serve_all, serve_all-decided}

abbrev admin : CurrentUser
admin = record {
  id = 1;
  username = "admin";
  is_admin = true;
  permissions = [];
  visible_group_ids = [];
}

abbrev approval : String → ApprovalStatus → Approval
approval type status = record {
  biz_type = type;
  biz_id = 5;
  requester_id = 2;
  status = status;
  approval_mode = "manual";
  policy_ref = none;
  approver_id = none;
  decided_at = none;
  version = 0;
}

-- approvals of task 5 and of session 5, and one that was rejected
abbrev db : ApprovalDb
db = record {
  approvals = record {
    rows =
        (1, approval "exec" ApprovalStatus.pending)
        ∷ (2, approval "terminal" ApprovalStatus.pending)
        ∷ (3, approval "exec" ApprovalStatus.rejected)
        ∷ [];
    next_id = 4;
  };
  records = record { rows = []; next_id = 1 };
  tasks = record {
    rows =
        (
          5,
          record {
            task_no = "20261126-005";
            kind = "command";
            script_id = none;
            script_version = none;
            command = some "rm -r /tmp/x";
            target_host_ids = [];
            timeout_sec = 300;
            sensitive_flag = 1;
            approve_required = 1;
            approval_id = some 1;
            created_by = some 2;
            created_at = 7;
            status = TaskStatus.awaiting_approval;
            version = 0;
            started_at = none;
            finished_at = none;
          },
        )
        ∷ [];
    next_id = 6;
  };
  sessions = record {
    rows =
        (
          5,
          record {
            status = SessionStatus.awaiting_approval;
            close_reason = "";
            started_at = none;
            finished_at = none;
          },
        )
        ∷ [];
    next_id = 6;
  };
  queue = [];
  broker = λ id now. true;
}

-- what a decision leaves, where it goes through
abbrev or_same : Result ApprovalDb → ApprovalDb
or_same (ok s) = s
or_same (err e) = db

abbrev approved : ApprovalDb
approved =
    or_same (decide admin 1 9 (Decision.approve "") (approval "exec" ApprovalStatus.pending) db)

approve_1 :
    decide admin 1 9 (Decision.approve "") (approval "exec" ApprovalStatus.pending) db ≡ ok approved
unfolding decide decide_row update_approval update_task run_task approve_exec approve_linkages find
    put add
approve_1 = refl

decide-once_example :
    decide admin 1 10 Decision.cancel (approval "exec" ApprovalStatus.pending) approved
    ≡ err conflict
decide-once_example =
    decide-once admin admin 1 9 10 (Decision.approve "") Decision.cancel
      (approval "exec" ApprovalStatus.pending) (approval "exec" ApprovalStatus.pending) db approved
      approve_1

abbrev rejected : ApprovalDb
rejected =
    or_same
      (decide admin 2 9 (Decision.reject "no") (approval "terminal" ApprovalStatus.pending) db)

reject_2 :
    decide admin 2 9 (Decision.reject "no") (approval "terminal" ApprovalStatus.pending) db
    ≡ ok rejected
unfolding decide decide_row update_approval find put add
reject_2 = refl

reject-terminal_example :
    (rejected.sessions ≡ db.sessions)
    × ((p : Approval) × (find rejected.approvals 2 ≡ some p) × (p.status ≡ ApprovalStatus.rejected))
    × ((user : CurrentUser) (now : ℕ) (d : Decision) (b : Approval)
        → decide user 2 now d b rejected ≡ err conflict)
reject-terminal_example =
    reject-terminal admin 2 9 "no" (approval "terminal" ApprovalStatus.pending) db rejected reject_2
      refl

abbrev calls : List Call
calls =
    record { user = admin; approval = 3; now = 9; decision = Decision.approve "" }
    ∷ record { user = admin; approval = 1; now = 9; decision = Decision.cancel }
    ∷ []

approval_3 : find db.approvals 3 ≡ some (approval "exec" ApprovalStatus.rejected)
unfolding find
approval_3 = refl

serve_all-decided_example :
    find (serve_all calls db).approvals 3 ≡ some (approval "exec" ApprovalStatus.rejected)
serve_all-decided_example =
    serve_all-decided calls db 3 (approval "exec" ApprovalStatus.rejected) approval_3 refl

abbrev rule : ApprovalRule
rule = record {
  name = "rm";
  kind = "keyword";
  value = null;
  trigger_action = "create";
  enabled = 1;
}

abbrev rules : Table ApprovalRule
rules = record { rows = (1, rule) ∷ (2, rule) ∷ []; next_id = 3 }

rule_1 : find rules 1 ≡ some rule
unfolding find
rule_1 = refl

delete_rule-find_example :
    ((j : ℕ) → find (request (delete_rule 1) rules).1 j ≡ (if 1 == j then none else find rules j))
    × (request (delete_rule 1) (request (delete_rule 1) rules).1
        ≡ (err not_found, (request (delete_rule 1) rules).1))
delete_rule-find_example = delete_rule-find 1 rules rule rule_1
