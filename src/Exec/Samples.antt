-- ===== src/Exec/Samples.antt =====
-- The theorems on execution tasks at a concrete database: one host, the word "rm" is sensitive.
use lark_plat.Prelude.{
  ℕ, ◌≤◌, ◌<◌, ◌≡◌, ◌≢◌, refl, ◌↔◌, ◌⊎◌, inl, arith, String, true, false, Option, none, some, List,
  [], ◌∷◌, length, ltb, ◌==◌, nat_eq, string_eq, if◌then◌else◌,
}
use lark_plat.Json.{Json, null, num, str, arr, nil, cons, obj, field, end, has, get, truthy}
use lark_plat.Errors.{AppError, ok, err}
use lark_plat.Statuses.{TaskStatus, ApprovalStatus}
use lark_plat.Session.{CurrentUser, request}
use lark_plat.Table.{Table, find}
use lark_plat.Approval.Model.{Approval, ExecTask}
use lark_plat.Approval.Service.{Decision, is_pending}
use lark_plat.Exec.Model.{HostStatus, ExecTaskHost, Host, ExecDb, by_task}
use lark_plat.Exec.Sensitive.{
  iterate, hit_words, reaches, first, SensitiveRules, Reason, read_rules, read_rule, rule_fields,
  take_rule, sensitive_rules, detect_sensitive, is_sensitive, searched_text,
}
use lark_plat.Exec.Text.{contains}
use lark_plat.Exec.Matches.{Matches, both_texts, IsConfigured, detect_sensitive_iff}
use lark_plat.Exec.Create.{ExecEnv, ExecRequest}
use lark_plat.Exec.Kept.{IsSoundDb}
use lark_plat.Exec.Cancel.{is_cancellable, retry_content, cancel_exec_task_record}
use lark_plat.Exec.Dispatch.{
  redo, no_hosts, active, aggregate, final_of, fold_dispatch, maybe_finalize_task, count,
  has_status,
}
use lark_plat.Exec.Stops.{Stopped, cancel_exec_task_record-Stopped}
use lark_plat.Exec.Folds.{Folds, AllSucceeded, fold_dispatch-Folds, maybe_finalize_task-Folds}
use lark_plat.Exec.Blocked.{retry_task-second_approval}
use lark_plat.Exec.Service.{retry_task}
use lark_plat.Exec.Traces.{Event, happen_all, happen_all-IsSound, happen_all-decided}

abbrev admin : CurrentUser
admin = record {
  id = 1;
  username = "admin";
  is_admin = true;
  permissions = [];
  visible_group_ids = [];
}

-- config_rule
abbrev words : Json
words = obj (field "words" (arr (cons (str "rm") (cons (str "") nil))) end)

abbrev rule : String → Option Json
rule key =
    if key == "exec_sensitive_word"
    then some words
    else if key == "exec_batch_threshold"
    then some (obj (field "threshold" (num 50) end))
    else none

-- the texts of the examples are in lower case already
abbrev lower : String → String
lower s = s

configured : IsConfigured rule ("rm" ∷ "" ∷ []) 50
unfolding get
configured = record {
  words = field "words" (arr (cons (str "rm") (cons (str "") nil))) end;
  words_rule = refl;
  has_words = refl;
  batch = field "threshold" (num 50) end;
  batch_rule = refl;
  has_threshold = refl;
  limit = inl refl;
  host_limit = inl refl;
}

abbrev threshold : ℕ
threshold = 50

detect_sensitive_iff_example :
    (rs : List Reason) × (detect_sensitive lower rule (some "rm -r x") none 1 ≡ ok rs)
    × ((is_sensitive rs ≡ true) ↔ (
        Matches lower (lower (both_texts (some "rm -r x") none)) ("rm" ∷ "" ∷ [])
        ⊎ ((threshold ≢ 0) × (threshold ≤ 1))))
detect_sensitive_iff_example =
    detect_sensitive_iff lower rule (some "rm -r x") none 1 ("rm" ∷ "" ∷ []) 50 configured

abbrev env : ExecEnv
env = record { lower = lower; ssh_available = false; task_no = "20261126-001"; now = 5 }

abbrev remove : ExecRequest
remove = record {
  kind = "command";
  target_host_ids = 7 ∷ [];
  script_id = none;
  script_version = none;
  command = some "rm -r x";
  timeout_sec = 300;
  created_by = none;
  requester_id = none;
  visible_group_ids = none;
  remediation = null;
}

abbrev host : Host
host = record { hostname = "web"; group_id = some 1; connector = "agent"; agent_id = none }

abbrev db : ExecDb
db = record {
  shared = record {
    approvals = record { rows = []; next_id = 1 };
    records = record { rows = []; next_id = 1 };
    tasks = record { rows = []; next_id = 1 };
    sessions = record { rows = []; next_id = 1 };
    queue = [];
    broker = λ id now. true;
  };
  task_hosts = record { rows = []; next_id = 1 };
  hosts = record { rows = (7, host) ∷ []; next_id = 8 };
  scripts = record { rows = []; next_id = 1 };
  script_versions = [];
  rule = rule;
  governance = record { levels = []; policies = []; whitelist = []; breakers = [] };
  ai_actions = [];
}

db-IsSound : IsSoundDb db
unfolding find
db-IsSound = record {
  keyed_t = tt;
  keyed_a = tt;
  positive = omega arith;
  paired = record { holds = λ i x is. cc is; awaits = λ a p is. cc is; owns = λ i x a is. cc is };
}

-- a sensitive task is created, approved and runs on its host
abbrev events : List Event
events =
    Event.creates env admin remove
    ∷ Event.decides admin 1 6 (Decision.approve "")
    ∷ Event.starts (λ k. true) 7 1
    ∷ []

happen_all-IsSound_example : IsSoundDb (happen_all events db)
happen_all-IsSound_example = happen_all-IsSound events db db-IsSound

-- the task after it was created and approved
abbrev running_task : ExecTask
running_task = record {
  task_no = "20261126-001";
  kind = "command";
  script_id = none;
  script_version = none;
  command = some "rm -r x";
  target_host_ids = 7 ∷ [];
  timeout_sec = 300;
  sensitive_flag = 1;
  approve_required = 1;
  approval_id = some 1;
  created_by = some 1;
  created_at = 5;
  status = TaskStatus.running;
  version = 2;
  started_at = some 6;
  finished_at = none;
}

task_1 : find (happen_all events db).shared.tasks 1 ≡ some running_task
unfolding lark_plat.Exec.Traces.happens lark_plat.Exec.Traces.happen_all
    lark_plat.Exec.Dispatch.start_found lark_plat.Exec.Dispatch.start_hosts
    lark_plat.Approval.Requests.require_pending lark_plat.Approval.Requests.decide_request
    lark_plat.Session.◌>>=◌ lark_plat.Session.has_perm lark_plat.Session.require_perm
    lark_plat.Exec.Service.save_all lark_plat.Exec.Service.create_exec_task_record
    lark_plat.Exec.Service.scoped lark_plat.Exec.Service.create_task
    lark_plat.Exec.Hold.new_approval lark_plat.Exec.Hold.has_biz lark_plat.Exec.Hold.insert_approval
    lark_plat.Exec.Hold.move_task lark_plat.Exec.Hold.resolve lark_plat.Exec.Hold.hold
    lark_plat.Exec.Hold.insert_task lark_plat.Exec.Hold.prepare lark_plat.Exec.Hold.proceed
    lark_plat.Exec.Hold.create_body lark_plat.Exec.Create.set_host lark_plat.Exec.Create.get_host
    lark_plat.Exec.Create.is_visible lark_plat.Exec.Create.check_host
    lark_plat.Exec.Create.check_hosts lark_plat.Exec.Create.require_command
    lark_plat.Exec.Create.script_content lark_plat.Exec.Create.new_task
    lark_plat.Exec.Create.has_pair lark_plat.Exec.Create.insert_task_host
    lark_plat.Exec.Create.add_task_hosts lark_plat.Exec.Sensitive.rule_fields
    lark_plat.Exec.Sensitive.take_rule lark_plat.Exec.Sensitive.read_rule
    lark_plat.Exec.Sensitive.read_rules lark_plat.Exec.Sensitive.sensitive_rules
    lark_plat.Exec.Sensitive.iterate lark_plat.Exec.Sensitive.hit_words
    lark_plat.Exec.Sensitive.searched_text lark_plat.Exec.Sensitive.reaches
    lark_plat.Exec.Sensitive.detect_sensitive lark_plat.Exec.Text.contains
    lark_plat.Exec.Model.optimistic_update lark_plat.Exec.Model.set_task
    lark_plat.Approval.Service.update_approval lark_plat.Approval.Service.update_task
    lark_plat.Approval.Service.decide_row lark_plat.Approval.Service.run_task
    lark_plat.Approval.Service.approve_exec lark_plat.Approval.Service.approve_linkages
    lark_plat.Approval.Service.decide lark_plat.Table.find lark_plat.Table.put lark_plat.Table.add
    lark_plat.Json.get lark_plat.Json.truthy lark_plat.Json.has
    lark_plat.Automation.Policy.resolve_auto_policy
task_1 = refl

happen_all-decided_example :
    (p : Approval) × (find (happen_all events db).shared.approvals 1 ≡ some p)
    × (p.biz_id ≡ 1)
    × (is_pending p.status ≡ false)
happen_all-decided_example =
    happen_all-decided events db 1 1 running_task db-IsSound task_1 refl refl

-- the database with the task running on its host, which has ended with a status
abbrev host_row : HostStatus → ExecTaskHost
host_row status = record {
  exec_task_id = 1;
  host_id = 7;
  executor = "agent";
  status = status;
  exit_code = none;
  started_at = some 6;
  finished_at = none;
}

abbrev approval : Approval
approval = record {
  biz_type = "exec";
  biz_id = 1;
  requester_id = 1;
  status = ApprovalStatus.approved;
  approval_mode = "manual";
  policy_ref = none;
  approver_id = some 1;
  decided_at = some 6;
  version = 1;
}

abbrev with_task : ExecTask → HostStatus → ExecDb
with_task x status = record db {
  shared = record db.shared {
    approvals = record { rows = (1, approval) ∷ []; next_id = 2 };
    tasks = record { rows = (1, x) ∷ []; next_id = 2 };
  };
  task_hosts = record { rows = (1, host_row status) ∷ []; next_id = 2 };
}

found_1 : (x : ExecTask) (status : HostStatus) → find (with_task x status).shared.tasks 1 ≡ some x
unfolding find
found_1 x status = refl

cancel_exec_task_record-Stopped_example :
    ((is_cancellable running_task.status ≡ true)
      × ((cancel_exec_task_record 9 1 running_task (with_task running_task HostStatus.running)).0
          ≡ true)
      × Stopped 9 1 running_task
          (with_task running_task HostStatus.running)
          (cancel_exec_task_record 9 1 running_task (with_task running_task HostStatus.running)).1)
    ⊎ ((is_cancellable running_task.status ≡ false)
        × (cancel_exec_task_record 9 1 running_task (with_task running_task HostStatus.running)
            ≡ (false, with_task running_task HostStatus.running)))
cancel_exec_task_record-Stopped_example =
    cancel_exec_task_record-Stopped 9 1 running_task (with_task running_task HostStatus.running)
      (found_1 running_task HostStatus.running)

abbrev done_db : ExecDb
done_db = with_task running_task HostStatus.success

fold_dispatch-Folds_example :
    ((ltb 0 (active (by_task 1 done_db.task_hosts.rows)) ≡ true)
      × (fold_dispatch true 9 1 done_db ≡ redo true 1 (by_task 1 done_db.task_hosts.rows) done_db))
    ⊎ (Folds 9 1 running_task done_db (fold_dispatch true 9 1 done_db)
        × ((aggregate (by_task 1 done_db.task_hosts.rows) ≡ TaskStatus.success) ↔ (
            (0 < length (by_task 1 done_db.task_hosts.rows))
            × AllSucceeded (by_task 1 done_db.task_hosts.rows))))
fold_dispatch-Folds_example =
    fold_dispatch-Folds true 9 1 running_task done_db (found_1 running_task HostStatus.success) refl

maybe_finalize_task-Folds_example :
    (((by_task 1 done_db.task_hosts.rows ≡ []) ⊎ (0 < active (by_task 1 done_db.task_hosts.rows)))
      × (maybe_finalize_task 9 1 done_db ≡ done_db))
    ⊎ (Folds 9 1 running_task done_db (maybe_finalize_task 9 1 done_db)
        × ((final_of (by_task 1 done_db.task_hosts.rows) ≡ TaskStatus.success) ↔ (
            (0 < length (by_task 1 done_db.task_hosts.rows))
            × AllSucceeded (by_task 1 done_db.task_hosts.rows))))
maybe_finalize_task-Folds_example =
    maybe_finalize_task-Folds 9 1 running_task done_db (found_1 running_task HostStatus.success)
      refl

abbrev reasons : List Reason
reasons = Reason.words ("rm" ∷ []) ∷ []

-- the task has failed
abbrev failed_task : ExecTask
failed_task = record running_task { status = TaskStatus.failed }

abbrev failed_db : ExecDb
failed_db = with_task failed_task HostStatus.failed

approval_1 : find failed_db.shared.approvals 1 ≡ some approval
unfolding find
approval_1 = refl

reasons_retry :
    detect_sensitive lower rule (some "rm -r x") (retry_content failed_task failed_db) 1
    ≡ ok reasons
unfolding detect_sensitive sensitive_rules read_rules read_rule rule_fields iterate take_rule has
    get hit_words reaches truthy contains searched_text retry_content first
reasons_retry = refl

retry_task-second_approval_example :
    (e : AppError) × (request (retry_task env admin 1) failed_db ≡ (err e, failed_db))
retry_task-second_approval_example =
    retry_task-second_approval env admin 1 1 failed_db failed_task approval reasons
      (found_1 failed_task HostStatus.failed) approval_1 refl reasons_retry refl
