-- ===== src/Ticket/Requests.antt =====
-- The requests of backend/app/services/ticket_service.py.
use lark_plat.Prelude.{ℕ, ◌≡◌, refl, String, true, Option, none, some, List, [], ◌∷◌, nat_eq}
use lark_plat.Errors.{AppError, Result, ok, err}
use lark_plat.Session.{request, CurrentUser, has_perm}
use lark_plat.Session.After.{Leaves}
use lark_plat.Features.{feature_on}
use lark_plat.Table.{find, put, add}
use lark_plat.Ticket.Model.{Action, allowed_from, editable_statuses, status_in, Ticket, TicketDb}
use lark_plat.Ticket.Refs.{TicketCreate, insert_ticket-tickets, exec_ref-tickets}
use lark_plat.Ticket.Service.{
  TicketUpdate, Upload, create_ticket, edit_ticket, edited, assign_ticket, stamp_close,
  simple_transition, accept_ticket, process_ticket, close_ticket, reopen_ticket, cancel_ticket,
  done_ticket, add_comment, attach, attach_all, add_attachments, add_ref,
}
use lark_plat.Ticket.After.{
  with_row, moved, assigned, resolved, first_status, after-create, after-edit, after-assign,
  after-simple, after-done, after-comment, after-attachments, after-ref,
}

-- the requests that write
pub data Request : Type 0 where
  create : TicketCreate → ℕ → Request
  edit : ℕ → TicketUpdate → Request
  assign : ℕ → ℕ → Request
  accept process close reopen cancel : ℕ → Request
  done : ℕ → Option ℕ → Request
  comment : ℕ → String → Request
  attachments : ℕ → List Upload → Request
  ref : ℕ → String → ℕ → Request

-- the error of a request, if it raises, and the database that it leaves
abbrev pub erase {ℓ} : {A : Type ℓ} {S : Type 0} → Result A × S → Option AppError × S
erase (ok a, s) = (none, s)
erase (err e, s) = (some e, s)

unfoldable pub serve : CurrentUser → String → ℕ → Request → TicketDb → Option AppError × TicketDb
serve user day now (create c serial) db = erase (request (create_ticket user c day serial) db)
serve user day now (edit i u) db = erase (request (edit_ticket user i u) db)
serve user day now (assign i assignee) db = erase (request (assign_ticket user i assignee) db)
serve user day now (accept i) db = erase (request (accept_ticket user i now) db)
serve user day now (process i) db = erase (request (process_ticket user i now) db)
serve user day now (close i) db = erase (request (close_ticket user i now) db)
serve user day now (reopen i) db = erase (request (reopen_ticket user i now) db)
serve user day now (cancel i) db = erase (request (cancel_ticket user i now) db)
serve user day now (done i task) db = erase (request (done_ticket user i task now) db)
serve user day now (comment i content) db = erase (request (add_comment user i content) db)
serve user day now (attachments i files) db = erase (request (add_attachments user i files) db)
serve user day now (ref i type id) db = erase (request (add_ref user i type id) db)

-- how a request changes a row
pub data RowStep (user : CurrentUser) (now : ℕ) (t : Ticket) : Ticket → Type 0 where
  edits :
      (u : TicketUpdate)
      → has_perm user "ticket:edit" ≡ true
      → status_in t.status editable_statuses ≡ true
      → RowStep user now t (edited u t)
  assigns :
      (assignee : ℕ)
      → has_perm user "ticket:assign" ≡ true
      → status_in t.status (allowed_from Action.assign) ≡ true
      → RowStep user now t (assigned assignee t)
  accepts :
      has_perm user "ticket:accept" ≡ true
      → status_in t.status (allowed_from Action.accept) ≡ true
      → RowStep user now t (moved Action.accept t)
  processes :
      has_perm user "ticket:process" ≡ true
      → status_in t.status (allowed_from Action.process) ≡ true
      → RowStep user now t (moved Action.process t)
  closes :
      has_perm user "ticket:close" ≡ true
      → status_in t.status (allowed_from Action.close) ≡ true
      → RowStep user now t (stamp_close Action.close now (moved Action.close t))
  reopens :
      has_perm user "ticket:reopen" ≡ true
      → status_in t.status (allowed_from Action.reopen) ≡ true
      → RowStep user now t (moved Action.reopen t)
  cancels :
      has_perm user "ticket:cancel" ≡ true
      → status_in t.status (allowed_from Action.cancel) ≡ true
      → RowStep user now t (moved Action.cancel t)
  resolves :
      has_perm user "ticket:done" ≡ true
      → status_in t.status (allowed_from Action.done) ≡ true
      → RowStep user now t (resolved now t)

-- what a request that succeeds does to the tickets
pub data Writes (user : CurrentUser) (now : ℕ) (db next' : TicketDb) : Type 0 where
  row :
      (i : ℕ) (t t' : Ticket)
      → find db.tickets i ≡ some t
      → RowStep user now t t'
      → next'.tickets ≡ put db.tickets i t'
      → Writes user now db next'
  created :
      (c : TicketCreate) (t : Ticket)
      → t.status ≡ first_status c
      → t.assignee_id ≡ c.assignee_id
      → next'.tickets ≡ add db.tickets t
      → Writes user now db next'
  beside : next'.tickets ≡ db.tickets → Writes user now db next'

-- a request raises and leaves the database as it was, or it writes under the feature flag
pub data Outcome (user : CurrentUser) (now : ℕ) (db : TicketDb)
    : Option AppError × TicketDb → Type 0 where
  raised : (e : AppError) → Outcome user now db (some e, db)
  wrote :
      (next' : TicketDb)
      → feature_on db.feature ≡ true
      → Writes user now db next'
      → Outcome user now db (none, next')

attach_all-tickets :
    (user : CurrentUser) (i : ℕ) (files : List Upload) (db : TicketDb)
    → (attach_all user i files db).tickets ≡ db.tickets
unfolding attach
attach_all-tickets user i [] db = refl
attach_all-tickets user i (u ∷ us) db = attach_all-tickets user i us (attach user i u db)

module _ (user : CurrentUser) (day : String) (now : ℕ) (db : TicketDb) where
  simply :
      (i : ℕ) (action : Action) (perm : String)
      → ((t : Ticket)
          → has_perm user perm ≡ true
          → status_in t.status (allowed_from action) ≡ true
          → RowStep user now t (stamp_close action now (moved action t)))
      → Outcome user now db (erase (request (simple_transition user i action perm now) db))
  unfolding Leaves
  simply i action perm k =
      after-simple (λ r. Outcome user now db (erase r)) user i db action perm now raised
        λ t on may is allowed. wrote _ on (row i t _ is (k t may allowed) refl)

  pub serve-Outcome : (r : Request) → Outcome user now db (serve user day now r db)
  unfolding serve Leaves accept_ticket process_ticket close_ticket reopen_ticket cancel_ticket
  serve-Outcome (create c serial) =
      after-create user db (λ r. Outcome user now db (erase r)) c day serial raised
        λ next' on _ _ _ _ made.
          wrote next' on (created c _ refl refl (insert_ticket-tickets user c _ day serial db made))
  serve-Outcome (edit i u) =
      after-edit (λ r. Outcome user now db (erase r)) user i db u raised
        λ t on may is allowed. wrote _ on (row i t _ is (edits u may allowed) refl)
  serve-Outcome (assign i assignee) =
      after-assign (λ r. Outcome user now db (erase r)) user i db assignee raised
        λ t on may is allowed. wrote _ on (row i t _ is (assigns assignee may allowed) refl)
  serve-Outcome (accept i) =
      simply i Action.accept "ticket:accept" λ t may allowed. accepts may allowed
  serve-Outcome (process i) =
      simply i Action.process "ticket:process" λ t may allowed. processes may allowed
  serve-Outcome (close i) = simply i Action.close "ticket:close" λ t may allowed. closes may allowed
  serve-Outcome (reopen i) =
      simply i Action.reopen "ticket:reopen" λ t may allowed. reopens may allowed
  serve-Outcome (cancel i) =
      simply i Action.cancel "ticket:cancel" λ t may allowed. cancels may allowed
  serve-Outcome (done i task) =
      after-done (λ r. Outcome user now db (erase r)) user i db task now raised
        λ t next' on may is allowed made. wrote next' on (
          row i t _ is (resolves may allowed)
            (exec_ref-tickets user i task (with_row i (resolved now t) db) made))
  serve-Outcome (comment i content) =
      after-comment user db (λ r. Outcome user now db (erase r)) i content raised
        λ t on is. wrote _ on (beside refl)
  serve-Outcome (attachments i files) =
      after-attachments user db (λ r. Outcome user now db (erase r)) i files raised
        λ on. wrote _ on (beside (attach_all-tickets user i files db))
  serve-Outcome (ref i type id) =
      after-ref user db (λ r. Outcome user now db (erase r)) i type id raised
        (λ k t on _ _ _ is. wrote db on (beside refl)) (λ t on _ _ _ is. wrote _ on (beside refl))
