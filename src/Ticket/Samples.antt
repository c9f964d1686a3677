-- ===== src/Ticket/Samples.antt =====
-- The theorems on tickets at a concrete database.
use lark_plat.Prelude.{◌≡◌, refl, arith, true, false, List, [], ◌∷◌, none, some}
use lark_plat.Json.{bool, obj, field, end, get, truthy}
use lark_plat.Errors.{AppError, ok, err}
use lark_plat.Session.{request, CurrentUser, has_perm, require_perm, ◌>>=◌}
use lark_plat.Features.{feature_on, require_feature}
use lark_plat.Table.{find, IsKeyed}
use lark_plat.Ticket.Model.{TicketStatus, Ticket, TicketRef, TicketDb}
use lark_plat.Ticket.Refs.{find_ref}
use lark_plat.Ticket.Service.{gate, get_row, new_ref, add_ref, done_ticket}
use lark_plat.Ticket.Requests.{Request, serve}
use lark_plat.Ticket.Lifecycle.{KeepsTickets, serve-Follows, serve-IsAtomic}
use lark_plat.Ticket.Stamps.{IsSound}
use lark_plat.Ticket.Traces.{Call, serve_all, serve_all-IsSound, serve_all-cancelled}
use lark_plat.Ticket.References.{add_ref-again, done_ticket-same_task}

abbrev admin : CurrentUser
admin = record {
  id = 1;
  username = "admin";
  is_admin = true;
  permissions = [];
  visible_group_ids = [];
}

abbrev ticket : TicketStatus → Ticket
ticket status = record {
  ticket_no = record { day = "20260101"; serial = 1 };
  title = "disk full";
  category = "incident";
  priority = "high";
  status = status;
  requester_id = some 1;
  assignee_id = some 2;
  description = "";
  sla_due_at = none;
  resolved_at = none;
  closed_at = none;
  version = 3;
}

abbrev exec_ref_row : TicketRef
exec_ref_row = record { ticket_id = 1; ref_type = "exec_task"; ref_id = 9; created_by = some 1 }

-- ticket 1 is in processing and refers to task 9, ticket 2 is cancelled
abbrev db : TicketDb
db = record {
  feature = some (obj (field "value" (bool true) end));
  tickets = record {
    rows = (1, ticket TicketStatus.processing) ∷ (2, ticket TicketStatus.cancel) ∷ [];
    next_id = 3;
  };
  refs = record { rows = (1, exec_ref_row) ∷ []; next_id = 2 };
  comments = record { rows = []; next_id = 1 };
  attachments = record { rows = []; next_id = 1 };
  packages = record { rows = []; next_id = 1 };
}

db-IsKeyed : IsKeyed db.tickets
db-IsKeyed = (omega arith, (omega arith, tt))

db-IsSound : IsSound db
unfolding find
db-IsSound = record {
  keyed = db-IsKeyed;
  stamped = λ i t is.
      ((λ a. ground (arith, is, a)), (λ a. ground (arith, is, a)), λ a. ground (arith, is, a));
}

serve-Follows_example : KeepsTickets admin db (serve admin "20260102" 50 (Request.done 1 none) db).1
serve-Follows_example = serve-Follows admin "20260102" 50 (Request.done 1 none) db db-IsKeyed

serve-IsAtomic_example :
    ((e : AppError)
      → (serve admin "20260102" 50 (Request.close 1) db).0 ≡ some e
      → (serve admin "20260102" 50 (Request.close 1) db).1 ≡ db)
    × ((serve admin "20260102" 50 (Request.close 1) db).0 ≡ none → feature_on db.feature ≡ true)
serve-IsAtomic_example = serve-IsAtomic admin "20260102" 50 (Request.close 1) db

abbrev call : Request → Call
call r = record { user = admin; day = "20260102"; now = 50; request = r }

abbrev calls : List Call
calls = call (Request.done 1 none) ∷ call (Request.close 1) ∷ call (Request.reopen 2) ∷ []

serve_all-IsSound_example : IsSound (serve_all calls db)
serve_all-IsSound_example = serve_all-IsSound calls db db-IsSound

ticket_2 : find db.tickets 2 ≡ some (ticket TicketStatus.cancel)
unfolding find
ticket_2 = refl

serve_all-cancelled_example :
    find (serve_all calls db).tickets 2 ≡ some (ticket TicketStatus.cancel)
serve_all-cancelled_example =
    serve_all-cancelled calls db 2 (ticket TicketStatus.cancel) db-IsSound ticket_2 refl

added : (request (add_ref admin 1 "script" 4) db).0 ≡ ok (2, true)
unfolding add_ref gate get_row new_ref require_feature require_perm has_perm feature_on get truthy
    find find_ref ◌>>=◌
added = refl

add_ref-again_example :
    request (add_ref admin 1 "script" 4) (request (add_ref admin 1 "script" 4) db).1
    ≡ (ok (2, false), (request (add_ref admin 1 "script" 4) db).1)
add_ref-again_example = add_ref-again admin 1 "script" 4 db 2 true added

task_9 : find_ref 1 "exec_task" 9 db.refs.rows ≡ some 1
unfolding find_ref
task_9 = refl

done_ticket-same_task_example :
    (e : AppError) × (request (done_ticket admin 1 (some 9) 50) db ≡ (err e, db))
done_ticket-same_task_example = done_ticket-same_task admin 1 8 50 1 db task_9
