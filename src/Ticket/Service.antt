-- ===== src/Ticket/Service.antt =====
-- The operations of backend/app/services/ticket_service.py. Each request ends with at most one
-- commit; `day` is today's date, `now` the instant of the request.
use Prim.Native.Char.{code as char_code}
use lark_plat.Prelude.{
  ℕ, zero, suc, ◌+◌, String, Bool, true, false, ◌||◌, Option, none, some, List, [], ◌∷◌, elem, ◌==◌,
  nat_eq, string_eq, if◌then◌else◌,
}
use lark_plat.Errors.{bad_request, not_found, validation, Result, ok, err}
use lark_plat.Session.{
  Db, pure, lift, gets, fetch, modify, write, commit, require, CurrentUser, require_perm, ◌>>=◌,
  ◌>>◌,
}
use lark_plat.Features.{require_feature}
use lark_plat.Table.{find, put, add}
use lark_plat.Ticket.Refs.{find_ref, exec_ref, TicketCreate, insert_ticket}
use lark_plat.Ticket.Model.{
  TicketStatus, Action, status_in, allowed_from, target, editable_statuses, categories, priorities,
  ref_types, Ticket, TicketDb,
}

-- bool(id) for an optional id
abbrev pub given : Option ℕ → Bool
given none = false
given (some zero) = false
given (some (suc n)) = true

-- _require_feature, require_perm
unfoldable pub gate : CurrentUser → String → Db TicketDb Unit
gate user perm = require_feature (λ (s : TicketDb). s.feature) >> require_perm user perm

unfoldable pub get_row : ℕ → Db TicketDb Ticket
get_row i = fetch not_found (λ (s : TicketDb). find s.tickets i)

unfoldable pub save : ℕ → Ticket → Db TicketDb Unit
save i t = modify (λ (s : TicketDb). record s { tickets = put s.tickets i t })

-- `_out`, the id and the columns
abbrev pub Out : Type 0
Out = ℕ × Ticket

unfoldable pub apply_transition : Ticket → Action → Result Ticket
apply_transition t action =
    if status_in t.status (allowed_from action)
    then ok (record t { status = target action; version = t.version + 1 })
    else err bad_request

unfoldable pub create_ticket : CurrentUser → TicketCreate → String → ℕ → Db TicketDb ℕ
create_ticket user c day serial = do
  gate user "ticket:create"
  require (elem c.category categories) validation
  require (elem c.priority priorities) validation
  if given c.assignee_id then require_perm user "ticket:assign" else pure tt
  i ← gets (λ (s : TicketDb). s.tickets.next_id)
  write (
      insert_ticket user c
        (if given c.assignee_id then TicketStatus.assign else TicketStatus.create) day serial)
  commit
  pure i

pub record TicketUpdate : Type 0 where
  pub title : Option String
  pub category : Option String
  pub priority : Option String
  pub description : Option String
  pub assignee_id : Option ℕ
  pub due_at : Option ℕ

-- data.x is not None
abbrev pub or_keep {ℓ} : {A : Type ℓ} → Option A → A → A
or_keep none a = a
or_keep (some b) a = b

abbrev pub or_keep_some {ℓ} : {A : Type ℓ} → Option A → Option A → Option A
or_keep_some none o = o
or_keep_some (some b) o = some b

abbrev pub valid_or_absent : Option String → List String → Bool
valid_or_absent none xs = true
valid_or_absent (some s) xs = elem s xs

unfoldable pub edited : TicketUpdate → Ticket → Ticket
edited u t = record t {
  title = or_keep u.title t.title;
  category = or_keep u.category t.category;
  priority = or_keep u.priority t.priority;
  description = or_keep u.description t.description;
  assignee_id = or_keep_some u.assignee_id t.assignee_id;
  sla_due_at = or_keep_some u.due_at t.sla_due_at;
  version = t.version + 1;
}

unfoldable pub edit_ticket : CurrentUser → ℕ → TicketUpdate → Db TicketDb Out
edit_ticket user i u = do
  gate user "ticket:edit"
  t ← get_row i
  require (status_in t.status editable_statuses) bad_request
  require (valid_or_absent u.category categories) validation
  require (valid_or_absent u.priority priorities) validation
  save i (edited u t)
  commit
  pure (i, edited u t)

unfoldable pub assign_ticket : CurrentUser → ℕ → ℕ → Db TicketDb Out
assign_ticket user i assignee = do
  gate user "ticket:assign"
  t ← get_row i
  moved ← lift (apply_transition t Action.assign)
  save i (record moved { assignee_id = some assignee })
  commit
  pure (i, record moved { assignee_id = some assignee })

-- `if action == "close"`
abbrev pub stamp_close : Action → ℕ → Ticket → Ticket
stamp_close Action.close now t = record t { closed_at = some now }
stamp_close _ now t = t

unfoldable pub simple_transition : CurrentUser → ℕ → Action → String → ℕ → Db TicketDb Out
simple_transition user i action perm now = do
  gate user perm
  t ← get_row i
  moved ← lift (apply_transition t action)
  save i (stamp_close action now moved)
  commit
  pure (i, stamp_close action now moved)

unfoldable pub accept_ticket : CurrentUser → ℕ → ℕ → Db TicketDb Out
accept_ticket user i now = simple_transition user i Action.accept "ticket:accept" now

unfoldable pub process_ticket : CurrentUser → ℕ → ℕ → Db TicketDb Out
process_ticket user i now = simple_transition user i Action.process "ticket:process" now

unfoldable pub close_ticket : CurrentUser → ℕ → ℕ → Db TicketDb Out
close_ticket user i now = simple_transition user i Action.close "ticket:close" now

unfoldable pub reopen_ticket : CurrentUser → ℕ → ℕ → Db TicketDb Out
reopen_ticket user i now = simple_transition user i Action.reopen "ticket:reopen" now

unfoldable pub cancel_ticket : CurrentUser → ℕ → ℕ → Db TicketDb Out
cancel_ticket user i now = simple_transition user i Action.cancel "ticket:cancel" now

-- `exec_task` is data.exec_task_id, `none` without data
unfoldable pub done_ticket : CurrentUser → ℕ → Option ℕ → ℕ → Db TicketDb Out
done_ticket user i exec_task now = do
  gate user "ticket:done"
  t ← get_row i
  moved ← lift (apply_transition t Action.done)
  write (λ (s : TicketDb).
      exec_ref user i exec_task
        (record s { tickets = put s.tickets i (record moved { resolved_at = some now }) }))
  commit
  pure (i, record moved { resolved_at = some now })

unfoldable pub add_comment : CurrentUser → ℕ → String → Db TicketDb ℕ
add_comment user i content = do
  gate user "ticket:comment"
  t ← get_row i
  new ← gets (λ (s : TicketDb). s.comments.next_id)
  modify (λ (s : TicketDb). record s {
    comments = add s.comments (record { ticket_id = i; author_id = user.id; content = content });
  })
  commit
  pure new

-- whether a text has a slash, and what follows its last one (`name.split("/")[-1]`)
unfoldable pub has_slash : String → Bool
has_slash String.[] = false
has_slash (String.◌∷◌ c s) = char_code c == b'/' || has_slash s

unfoldable pub base_name : String → String
unfolding has_slash
base_name String.[] = ""
base_name (String.◌∷◌ c s) =
    let rest = base_name s in
    if has_slash s then rest else if char_code c == b'/' then s else String.◌∷◌ c s

-- the name, `filename` or `name` of the upload, and the number of its bytes
pub record Upload : Type 0 where
  pub filename : String
  pub size : ℕ

unfoldable pub upload_name : Upload → String
unfolding base_name
upload_name u = base_name (if u.filename == "" then "file" else u.filename)

unfoldable pub attach : CurrentUser → ℕ → Upload → TicketDb → TicketDb
unfolding upload_name
attach user i u s = record s {
  packages =
      add s.packages (record { name = upload_name u; total_size = u.size; created_by = user.id });
  attachments = add s.attachments (record {
    ticket_id = i;
    file_id = s.packages.next_id;
    filename = upload_name u;
    size = u.size;
    uploaded_by = user.id;
  });
}

abbrev pub attach_all : CurrentUser → ℕ → List Upload → TicketDb → TicketDb
attach_all user i [] s = s
attach_all user i (u ∷ us) s = attach_all user i us (attach user i u s)

abbrev pub is_nonempty {ℓ} : {A : Type ℓ} → List A → Bool
is_nonempty [] = false
is_nonempty (x ∷ xs) = true

-- the bytes that go to the store directory are not modelled
unfoldable pub add_attachments : CurrentUser → ℕ → List Upload → Db TicketDb Unit
add_attachments user i files = do
  gate user "ticket:attachment"
  t ← get_row i
  require (is_nonempty files) bad_request
  modify (attach_all user i files)
  commit

unfoldable pub new_ref : CurrentUser → ℕ → String → ℕ → Option ℕ → Db TicketDb (ℕ × Bool)
new_ref user i type ref (some k) = pure (k, false)
new_ref user i type ref none = do
  new ← gets (λ (s : TicketDb). s.refs.next_id)
  modify (λ (s : TicketDb). record s {
    refs =
        add s.refs
          (record { ticket_id = i; ref_type = type; ref_id = ref; created_by = some user.id });
  })
  commit
  pure (new, true)

-- the id of the ref, and whether it was created
unfoldable pub add_ref : CurrentUser → ℕ → String → ℕ → Db TicketDb (ℕ × Bool)
add_ref user i type ref = do
  gate user "ticket:ref"
  t ← get_row i
  require (elem type ref_types) validation
  existing ← gets (λ (s : TicketDb). find_ref i type ref s.refs.rows)
  new_ref user i type ref existing
