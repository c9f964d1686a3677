-- ===== src/Workflow/Service/Callback.antt =====
-- `callback_node` of backend/app/services/workflow_service.py. `decode` is jose's `jwt.decode` with
-- the secret key, `number` Python's `int` on a text, and `dumped_size` the length of `json.dumps`.
use lark_plat.Prelude.{
  ℕ, ◌+◌, String, Bool, true, false, ◌&&◌, Option, none, some, List, [], ◌∷◌, leb, ◌==◌, nat_eq,
  string_eq, if◌then◌else◌,
}
use lark_plat.Json.{Json, bool, num, str, Fields, get, put as set_field}
use lark_plat.Errors.{conflict, not_found, unauthorized, validation, Result, ok, err}
use lark_plat.Session.{Db, fetch, write, commit, require, ◌>>=◌, ◌>>◌}
use lark_plat.Features.{require_feature}
use lark_plat.Table.{find}
use lark_plat.Workflow.Definition.{NodeType}
use lark_plat.Workflow.Model.{NodeStatus, NodeRun, NodeRow}
use lark_plat.Workflow.Service.Model.{WorkflowDb}

pub record TokenPort : Type 0 where
  pub decode : String → Option Fields
  pub number : String → Option ℕ
  pub dumped_size : Json → ℕ

abbrev pub is_number : Option ℕ → ℕ → Bool
is_number none n = false
is_number (some m) n = m == n

-- int(value) == n, where a value that int does not read is no match
unfoldable pub equals_int : TokenPort → Json → ℕ → Bool
equals_int p (num m) n = m == n
equals_int p (bool true) n = n == 1
equals_int p (bool false) n = n == 0
equals_int p (str s) n = is_number (p.number s) n
equals_int p _ n = false

abbrev pub equals_text : Json → String → Bool
equals_text (str s) t = s == t
equals_text _ t = false

-- the claims are those of a callback token for the node
abbrev pub is_bound : TokenPort → ℕ → String → Option Fields → Bool
is_bound p run key none = false
is_bound p run key (some claims) =
    equals_text (get claims "type") "wf_callback"
    && equals_int p (get claims "run_id") run
    && equals_text (get claims "node_key") key

unfoldable pub accepts_token : TokenPort → ℕ → String → Option String → Bool
accepts_token p run key none = false
accepts_token p run key (some token) =
    if token == "" then false else is_bound p run key (p.decode token)

-- the first row of the node
unfoldable pub find_node : ℕ → String → List (ℕ × NodeRow) → Option NodeRun
find_node run key [] = none
find_node run key ((k, r) ∷ rows) =
    let rest = find_node run key rows in
    if r.run == run && r.node.node_key == key then some r.node else rest

abbrev pub is_callback : NodeType → Bool
is_callback NodeType.callback = true
is_callback _ = false

abbrev pub is_waiting : NodeStatus → Bool
is_waiting NodeStatus.waiting = true
is_waiting _ = false

abbrev pub awaits_callback : NodeRun → Bool
awaits_callback n = is_callback n.node_type && is_waiting n.status

abbrev pub matches_node : ℕ → String → NodeRow → Bool
matches_node run key r = r.run == run && r.node.node_key == key && awaits_callback r.node

abbrev pub completed : ℕ → Fields → NodeRow → NodeRow
completed now out r = record r {
  node = record r.node {
    output = out;
    status = NodeStatus.succeeded;
    finished_at = some now;
    error = none;
  };
}

-- the conditional update, and the number of rows that it has changed
unfoldable pub complete_rows : ℕ → ℕ → String → Fields → List (ℕ × NodeRow) → ℕ × List (ℕ × NodeRow)
complete_rows now run key out [] = (0, [])
complete_rows now run key out ((k, r) ∷ rows) =
    let (n, rest) = complete_rows now run key out rows in
    if matches_node run key r then (n + 1, (k, completed now out r) ∷ rest) else (n, (k, r) ∷ rest)

unfoldable pub complete : ℕ → ℕ → String → Fields → WorkflowDb → Result WorkflowDb
complete now run key out s =
    let (n, rows) = complete_rows now run key out s.nodes.rows in
    if n == 1 then ok (record s { nodes = record s.nodes { rows = rows } }) else err conflict

-- _MAX_CALLBACK_PAYLOAD
abbrev pub max_callback_payload : ℕ
max_callback_payload = 65536

unfoldable pub callback_node :
    TokenPort → ℕ → ℕ → String → Option String → Json → Db WorkflowDb Unit
callback_node p now run key token payload = do
  require_feature (λ (s : WorkflowDb). s.feature)
  r ← fetch not_found (λ (s : WorkflowDb). find s.runs run)
  require (accepts_token p run key token) unauthorized
  n ← fetch not_found (λ (s : WorkflowDb). find_node run key s.nodes.rows)
  require (awaits_callback n) conflict
  require (leb (p.dumped_size payload) max_callback_payload) validation
  write (complete now run key (set_field n.output "payload" payload))
  commit
