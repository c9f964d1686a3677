-- ===== src/Exec/Create.antt =====
-- The body of `create_exec_task_record` of backend/app/services/exec_service.py, up to its commit: a
-- computation over the database, which raises or gives the answer and the new database.
use lark_plat.Prelude.{
  ℕ, zero, suc, String, Bool, true, false, ◌&&◌, Option, none, some, List, [], ◌∷◌, any, ◌==◌,
  nat_eq, string_eq, if◌then◌else◌,
}
use lark_plat.Json.{Json, get, truthy}
use lark_plat.Errors.{bad_request, forbidden, not_found, internal, Result, ok, err, ◌>>=◌}
use lark_plat.Statuses.{TaskStatus}
use lark_plat.Table.{Table, find, add}
use lark_plat.Approval.Model.{ExecTask}
use lark_plat.Exec.Model.{
  HostStatus, ExecTaskHost, Host, Script, ScriptVersion, ExecDb, by_script_version,
}

pub record ExecRequest : Type 0 where
  pub kind : String
  pub target_host_ids : List ℕ
  pub script_id : Option ℕ
  pub script_version : Option ℕ
  pub command : Option String
  pub timeout_sec : ℕ
  pub created_by : Option ℕ
  pub requester_id : Option ℕ
  pub visible_group_ids : Option (List ℕ)
  pub remediation : Json

-- what the request takes from outside: Python's `str.lower`, whether ssh can be used, the next
-- numbers of tasks and the clock
pub record ExecEnv : Type 0 where
  pub lower : String → String
  pub ssh_available : Bool
  pub task_no : String
  pub now : ℕ

pub record Created : Type 0 where
  pub id : ℕ
  pub status : TaskStatus
  pub approve_required : Bool
  pub approval_id : Option ℕ

-- the dictionary of the hosts
abbrev pub Hosts : Type 0
Hosts = List (ℕ × Host)

unfoldable pub set_host : ℕ → Host → Hosts → Hosts
set_host i h [] = (i, h) ∷ []
set_host i h ((j, x) ∷ rest) =
    let more = set_host i h rest in if j == i then (j, h) ∷ rest else (j, x) ∷ more

unfoldable pub get_host : ℕ → Hosts → Result Host
get_host i [] = err internal
get_host i ((j, x) ∷ rest) = let more = get_host i rest in if j == i then ok x else more

abbrev pub member : ℕ → List ℕ → Bool
member i = any (λ j. j == i)

-- host.group_id in visible_group_ids, or no scope
unfoldable pub is_visible : Option (List ℕ) → Option ℕ → Bool
is_visible none group = true
is_visible (some groups) none = false
is_visible (some groups) (some g) = member g groups

unfoldable pub check_host : Option (List ℕ) → Option Host → Result Host
check_host scope none = err not_found
check_host scope (some h) = if is_visible scope h.group_id then ok h else err forbidden

unfoldable pub check_hosts : Option (List ℕ) → Table Host → List ℕ → Hosts → Result Hosts
check_hosts scope t [] hosts = ok hosts
check_hosts scope t (i ∷ ids) hosts =
    check_host scope (find t i) >>= λ h. check_hosts scope t ids (set_host i h hosts)

-- `x or y` for an optional number
abbrev pub or_default : Option ℕ → ℕ → ℕ
or_default none d = d
or_default (some zero) d = d
or_default (some (suc n)) d = suc n

unfoldable pub version_content : Option ScriptVersion → Result (Option String)
version_content none = err not_found
version_content (some v) = ok (some v.content)

unfoldable pub script_text :
    ℕ → Option ℕ → Option Script → List ScriptVersion → Result (Option String)
script_text script version none rows = err not_found
script_text script version (some x) rows =
    version_content (by_script_version script (or_default version x.current_version) rows)

unfoldable pub find_script : Option ℕ → Option ℕ → ExecDb → Result (Option String)
find_script none version s = err bad_request
find_script (some zero) version s = err bad_request
find_script (some (suc n)) version s =
    script_text (suc n) version (find s.scripts (suc n)) s.script_versions

unfoldable pub require_command : Option String → Result (Option String)
require_command none = err bad_request
require_command (some command) = if command == "" then err bad_request else ok none

unfoldable pub script_content : ExecRequest → ExecDb → Result (Option String)
script_content r s =
    if r.kind == "script"
    then find_script r.script_id r.script_version s
    else if r.kind == "command"
    then require_command r.command
    else err bad_request

abbrev pub flag : Bool → ℕ
flag true = 1
flag false = 0

unfoldable pub new_task : ExecEnv → ExecRequest → Bool → ExecTask
new_task env r sensitive = record {
  task_no = env.task_no;
  kind = r.kind;
  script_id = r.script_id;
  script_version = r.script_version;
  command = r.command;
  target_host_ids = r.target_host_ids;
  timeout_sec = r.timeout_sec;
  sensitive_flag = flag sensitive;
  approve_required = flag sensitive;
  approval_id = none;
  created_by = r.created_by;
  created_at = env.now;
  status = TaskStatus.created;
  version = 0;
  started_at = none;
  finished_at = none;
}

-- _executor_ssh_fallback
unfoldable pub executor_ssh_fallback : Option Json → Bool
executor_ssh_fallback (some (Json.obj f)) = truthy (get f "value")
executor_ssh_fallback _ = false

-- resolve_executor
unfoldable pub resolve_executor : Bool → String → Bool → String
resolve_executor ssh_available connector ssh_fallback =
    if connector == "agent" && ssh_fallback && ssh_available then "ssh" else connector

unfoldable pub new_task_host : ExecEnv → Bool → ℕ → ℕ → Host → ExecTaskHost
new_task_host env ssh_fallback task host h = record {
  exec_task_id = task;
  host_id = host;
  executor = resolve_executor env.ssh_available h.connector ssh_fallback;
  status = HostStatus.pending;
  exit_code = none;
  started_at = none;
  finished_at = none;
}

-- the unique constraint of exec_task_host
unfoldable pub has_pair : ExecTaskHost → List (ℕ × ExecTaskHost) → Bool
has_pair h rows =
    any (λ (x : ℕ × ExecTaskHost). x.1.exec_task_id == h.exec_task_id && x.1.host_id == h.host_id)
      rows

unfoldable pub insert_task_host : ExecTaskHost → Table ExecTaskHost → Result (Table ExecTaskHost)
insert_task_host h t = if has_pair h t.rows then err internal else ok (add t h)

unfoldable pub add_task_hosts :
    ExecEnv → Bool → ℕ → Hosts → List ℕ → Table ExecTaskHost → Result (Table ExecTaskHost)
add_task_hosts env ssh_fallback task hosts [] t = ok t
add_task_hosts env ssh_fallback task hosts (i ∷ ids) t = do
  h ← get_host i hosts
  t' ← insert_task_host (new_task_host env ssh_fallback task i h) t
  add_task_hosts env ssh_fallback task hosts ids t'
