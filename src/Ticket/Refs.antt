-- ===== src/Ticket/Refs.antt =====
-- The rows that backend/app/services/ticket_service.py adds to ticket_ref, under the unique
-- constraint of backend/app/db/models/ticket.py, and the rows of a new ticket.
use lark_plat.Prelude.{
  ◌≡◌, ℕ, zero, suc, String, ◌&&◌, Option, none, some, List, [], ◌∷◌, ◌==◌, nat_eq, string_eq,
  if◌then◌else◌,
}
use lark_plat.Errors.{internal, Result, ok, err, ◌>>=◌, >>=-eq-ok}
use lark_plat.Session.{CurrentUser}
use lark_plat.Table.{Table, add}
use lark_plat.Ticket.Model.{TicketStatus, Ticket, TicketRef, TicketDb}

-- the query for (ticket_id, ref_type, ref_id)
unfoldable pub find_ref : ℕ → String → ℕ → List (ℕ × TicketRef) → Option ℕ
find_ref i type ref [] = none
find_ref i type ref ((k, r) ∷ rs) =
    if r.ticket_id == i && (r.ref_type == type && r.ref_id == ref)
    then some k
    else find_ref i type ref rs

-- db.add(TicketRef(...)): (ticket_id, ref_type, ref_id) is unique, and a second row is an
-- IntegrityError when it is flushed
unfoldable pub insert_ref : TicketRef → Table TicketRef → Result (Table TicketRef)
insert_ref r refs = elim (find_ref r.ticket_id r.ref_type r.ref_id refs.rows) [
  | none ↦ ok (add refs r)
  | some k ↦ err internal
]

unfoldable pub exec_ref : CurrentUser → ℕ → Option ℕ → TicketDb → Result TicketDb
exec_ref user i none s = ok s
exec_ref user i (some zero) s = ok s
exec_ref user i (some (suc n)) s = do
  refs ←
      insert_ref
        (record {
          ticket_id = i;
          ref_type = "exec_task";
          ref_id = suc n;
          created_by = some user.id;
        })
        s.refs
  ok (record s { refs = refs })

pub record TicketCreate : Type 0 where
  pub title : String
  pub category : String
  pub priority : String
  pub assignee_id : Option ℕ
  pub description : Option String
  pub due_at : Option ℕ
  pub host_ids : List ℕ

abbrev pub text_or : Option String → String → String
text_or none d = d
text_or (some s) d = s

unfoldable pub host_refs : ℕ → ℕ → List ℕ → Table TicketRef → Result (Table TicketRef)
host_refs ticket user [] refs = ok refs
host_refs ticket user (h ∷ hs) refs = do
  rest ←
      insert_ref
        (record { ticket_id = ticket; ref_type = "asset_host"; ref_id = h; created_by = some user })
        refs
  host_refs ticket user hs rest

abbrev pub new_ticket : CurrentUser → TicketCreate → TicketStatus → String → ℕ → Ticket
new_ticket user c status day serial = record {
  ticket_no = record { day = day; serial = serial };
  title = c.title;
  category = c.category;
  priority = c.priority;
  status = status;
  requester_id = some user.id;
  assignee_id = c.assignee_id;
  description = text_or c.description "";
  sla_due_at = c.due_at;
  resolved_at = none;
  closed_at = none;
  version = 0;
}

-- the new row and its refs; `serial` is what nextval('seq_ticket_no') has answered
unfoldable pub insert_ticket :
    CurrentUser → TicketCreate → TicketStatus → String → ℕ → TicketDb → Result TicketDb
insert_ticket user c status day serial s = do
  refs ← host_refs s.tickets.next_id user.id c.host_ids s.refs
  ok (record s { tickets = add s.tickets (new_ticket user c status day serial); refs = refs })

pub insert_ticket-tickets :
    (user : CurrentUser) (c : TicketCreate) (status : TicketStatus) (day : String) (serial : ℕ)
    (s : TicketDb) {s' : TicketDb}
    → insert_ticket user c status day serial s ≡ ok s'
    → s'.tickets ≡ add s.tickets (new_ticket user c status day serial)
unfolding insert_ticket
insert_ticket-tickets user c status day serial s h =
    let (_, _, e) = >>=-eq-ok (host_refs s.tickets.next_id user.id c.host_ids s.refs) _ h in cc

pub exec_ref-tickets :
    (user : CurrentUser) (i : ℕ) (task : Option ℕ) (s : TicketDb) {s' : TicketDb}
    → exec_ref user i task s ≡ ok s'
    → s'.tickets ≡ s.tickets
unfolding exec_ref
exec_ref-tickets user i none s h = cc
exec_ref-tickets user i (some zero) s h = cc
exec_ref-tickets user i (some (suc n)) s h =
    let (_, _, e) = >>=-eq-ok (insert_ref _ s.refs) _ h in cc
