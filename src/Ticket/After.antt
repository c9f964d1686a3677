-- ===== src/Ticket/After.antt =====
-- What each operation of backend/app/services/ticket_service.py answers and leaves in the database:
-- to show `P` of both, show it of every error with the database as it was, and of the answer with
-- the database that the operation writes.
use lark_plat.Prelude.{
  ◌≡◌, refl, ℕ, String, Bool, true, false, Option, none, some, List, ◌+◌, elem, if◌then◌else◌,
}
use lark_plat.Errors.{AppError, Result, ok, err}
use lark_plat.Session.{Db, CurrentUser, has_perm, require, require_perm, pure, lift, ◌>>=◌, ◌>>◌}
use lark_plat.Session.After.{
  Leaves, after-require, after-require_perm, after-write, after-flush, after-gets, after-fetch,
  after-pure, after-save, after-if, after-skip,
}
use lark_plat.Features.{feature_on, require_feature}
use lark_plat.Table.{find, put, add}
use lark_plat.Ticket.Model.{
  TicketStatus, Action, allowed_from, target, status_in, editable_statuses, categories, priorities,
  ref_types, Ticket, TicketDb,
}
use lark_plat.Ticket.Refs.{TicketCreate, insert_ticket, find_ref, exec_ref}
use lark_plat.Ticket.Service.{
  gate, get_row, save, Out, apply_transition, given, create_ticket, edited, edit_ticket,
  TicketUpdate, assign_ticket, stamp_close, simple_transition, done_ticket, add_comment, Upload,
  attach_all, add_attachments, new_ref, add_ref,
}

module _ {A : Type 0} (P : Result A × TicketDb → Type 0) (db : TicketDb) where
  gated :
      (on may : Bool) (m : Db TicketDb A) (e₁ e₂ : AppError)
      → ((e : AppError) → P (err e, db))
      → (on ≡ true → may ≡ true → Leaves P m db)
      → Leaves P ((require on e₁ >> require may e₂) >> m) db
  unfolding Leaves ◌>>=◌
  gated true true m e₁ e₂ h k = k refl refl
  gated true false m e₁ e₂ h k = h e₂
  gated false may m e₁ e₂ h k = h e₁

  after-gate :
      (user : CurrentUser) (perm : String) (m : Db TicketDb A)
      → ((e : AppError) → P (err e, db))
      → (feature_on db.feature ≡ true → has_perm user perm ≡ true → Leaves P m db)
      → Leaves P (gate user perm >> m) db
  unfolding Leaves gate require_feature require_perm ◌>>=◌
  after-gate user perm m h k = gated (feature_on db.feature) (has_perm user perm) m _ _ h k

-- what a row becomes, and the database with it
abbrev pub with_row : ℕ → Ticket → TicketDb → TicketDb
with_row i t db = record db { tickets = put db.tickets i t }

-- a row after an operation
abbrev pub moved : Action → Ticket → Ticket
moved action t = record t { status = target action; version = t.version + 1 }

abbrev pub assigned : ℕ → Ticket → Ticket
assigned assignee t = record (moved Action.assign t) { assignee_id = some assignee }

abbrev pub resolved : ℕ → Ticket → Ticket
resolved now t = record (moved Action.done t) { resolved_at = some now }

abbrev pub first_status : TicketCreate → TicketStatus
first_status c = if given c.assignee_id then TicketStatus.assign else TicketStatus.create

abbrev pub commented : CurrentUser → ℕ → String → TicketDb → TicketDb
commented user i content db = record db {
  comments = add db.comments (record { ticket_id = i; author_id = user.id; content = content });
}

abbrev pub referred : CurrentUser → ℕ → String → ℕ → TicketDb → TicketDb
referred user i type ref db = record db {
  refs =
      add db.refs
        (record { ticket_id = i; ref_type = type; ref_id = ref; created_by = some user.id });
}

module _ (P : Result Out × TicketDb → Type 0) (user : CurrentUser) (i : ℕ) (db : TicketDb) where
  pub after-edit :
      (u : TicketUpdate)
      → ((e : AppError) → P (err e, db))
      → ((t : Ticket)
          → feature_on db.feature ≡ true
          → has_perm user "ticket:edit" ≡ true
          → find db.tickets i ≡ some t
          → status_in t.status editable_statuses ≡ true
          → P (ok (i, edited u t), with_row i (edited u t) db))
      → Leaves P (edit_ticket user i u) db
  unfolding edit_ticket get_row save
  after-edit u h k = after-gate P db user _ _ h λ on may. after-fetch P db _ _ _ (h _) λ t is.
      after-require P db _ _ _ h λ editable.
        after-require P db _ _ _ h
          λ _. after-require P db _ _ _ h λ _. after-write P db _ _ (k t on may is editable)

  after-test :
      (b : Bool) (m : Ticket) (e : AppError) (k : Ticket → Db TicketDb Out)
      → ((e : AppError) → P (err e, db))
      → (b ≡ true → Leaves P (k m) db)
      → Leaves P (lift (if b then ok m else err e) >>= k) db
  unfolding Leaves ◌>>=◌
  after-test true m e k h g = g refl
  after-test false m e k h g = h e

  after-moved :
      (t : Ticket) (action : Action) (k : Ticket → Db TicketDb Out)
      → ((e : AppError) → P (err e, db))
      → (status_in t.status (allowed_from action) ≡ true → Leaves P (k (moved action t)) db)
      → Leaves P (lift (apply_transition t action) >>= k) db
  unfolding apply_transition
  after-moved t action k h g = after-test (status_in t.status (allowed_from action)) _ _ k h g

  pub after-assign :
      (assignee : ℕ)
      → ((e : AppError) → P (err e, db))
      → ((t : Ticket)
          → feature_on db.feature ≡ true
          → has_perm user "ticket:assign" ≡ true
          → find db.tickets i ≡ some t
          → status_in t.status (allowed_from Action.assign) ≡ true
          → P (ok (i, assigned assignee t), with_row i (assigned assignee t) db))
      → Leaves P (assign_ticket user i assignee) db
  unfolding assign_ticket get_row save pure
  after-assign assignee h k = after-gate P db user _ _ h λ on may.
      after-fetch P db _ _ _ (h _)
        λ t is. after-moved t _ _ h λ allowed. after-write P db _ _ (k t on may is allowed)

  pub after-simple :
      (action : Action) (perm : String) (now : ℕ)
      → ((e : AppError) → P (err e, db))
      → ((t : Ticket)
          → feature_on db.feature ≡ true
          → has_perm user perm ≡ true
          → find db.tickets i ≡ some t
          → status_in t.status (allowed_from action) ≡ true
          → P (
            ok (i, stamp_close action now (moved action t)),
            with_row i (stamp_close action now (moved action t)) db,
          ))
      → Leaves P (simple_transition user i action perm now) db
  unfolding simple_transition get_row save pure
  after-simple action perm now h k = after-gate P db user _ _ h λ on may.
      after-fetch P db _ _ _ (h _)
        λ t is. after-moved t _ _ h λ allowed. after-write P db _ _ (k t on may is allowed)

  pub after-done :
      (exec_task : Option ℕ) (now : ℕ)
      → ((e : AppError) → P (err e, db))
      → ((t : Ticket) (next : TicketDb)
          → feature_on db.feature ≡ true
          → has_perm user "ticket:done" ≡ true
          → find db.tickets i ≡ some t
          → status_in t.status (allowed_from Action.done) ≡ true
          → exec_ref user i exec_task (with_row i (resolved now t) db) ≡ ok next
          → P (ok (i, resolved now t), next))
      → Leaves P (done_ticket user i exec_task now) db
  unfolding done_ticket get_row pure
  after-done exec_task now h k = after-gate P db user _ _ h λ on may.
      after-fetch P db _ _ _ (h _) λ t is.
        after-moved t _ _ h
          λ allowed. after-flush P db _ _ h λ next made. k t next on may is allowed made

module _ (user : CurrentUser) (db : TicketDb) where
  pub after-create :
      (P : Result ℕ × TicketDb → Type 0) (c : TicketCreate) (day : String) (serial : ℕ)
      → ((e : AppError) → P (err e, db))
      → ((next : TicketDb)
          → feature_on db.feature ≡ true
          → has_perm user "ticket:create" ≡ true
          → elem c.category categories ≡ true
          → elem c.priority priorities ≡ true
          → (given c.assignee_id ≡ true → has_perm user "ticket:assign" ≡ true)
          → insert_ticket user c (first_status c) day serial db ≡ ok next
          → P (ok db.tickets.next_id, next))
      → Leaves P (create_ticket user c day serial) db
  unfolding create_ticket pure
  after-create P c day serial h k = after-gate P db user _ _ h λ on may.
      after-require P db _ _ _ h λ category. after-require P db _ _ _ h λ priority.
        after-if P db _ _ _ _
          (λ yes'. after-require_perm P db user _ _ h λ can.
            after-gets P db _ _
              (after-flush P db _ _ h λ next made. k next on may category priority (λ _. can) made))
          (λ no'. after-skip P db _ (
            after-gets P db _ _ (
              after-flush P db _ _ h λ next made. k next on may category priority (λ is. cc) made)))

  pub after-comment :
      (P : Result ℕ × TicketDb → Type 0) (i : ℕ) (content : String)
      → ((e : AppError) → P (err e, db))
      → ((t : Ticket)
          → feature_on db.feature ≡ true
          → find db.tickets i ≡ some t
          → P (ok db.comments.next_id, commented user i content db))
      → Leaves P (add_comment user i content) db
  unfolding add_comment get_row pure
  after-comment P i content h k = after-gate P db user _ _ h λ on may.
      after-fetch P db _ _ _ (h _) λ t is. after-gets P db _ _ (after-write P db _ _ (k t on is))

  pub after-attachments :
      (P : Result Unit × TicketDb → Type 0) (i : ℕ) (files : List Upload)
      → ((e : AppError) → P (err e, db))
      → (feature_on db.feature ≡ true → P (ok tt, attach_all user i files db))
      → Leaves P (add_attachments user i files) db
  unfolding add_attachments get_row pure
  after-attachments P i files h k = after-gate P db user _ _ h λ on may.
      after-fetch P db _ _ _ (h _)
        λ t is. after-require P db _ _ _ h λ nonempty. after-save P db _ (k on)

  after-new :
      (P : Result (ℕ × Bool) × TicketDb → Type 0) (i : ℕ) (type : String) (ref : ℕ) (o : Option ℕ)
      → ((k : ℕ) → o ≡ some k → P (ok (k, false), db))
      → (o ≡ none → P (ok (db.refs.next_id, true), referred user i type ref db))
      → Leaves P (new_ref user i type ref o) db
  unfolding new_ref pure
  after-new P i type ref none old fresh = after-gets P db _ _ (after-write P db _ _ (fresh refl))
  after-new P i type ref (some k) old fresh = after-pure P db _ (old k refl)

  pub after-ref :
      (P : Result (ℕ × Bool) × TicketDb → Type 0) (i : ℕ) (type : String) (ref : ℕ)
      → ((e : AppError) → P (err e, db))
      → ((k : ℕ) (t : Ticket)
          → feature_on db.feature ≡ true
          → has_perm user "ticket:ref" ≡ true
          → find db.tickets i ≡ some t
          → elem type ref_types ≡ true
          → find_ref i type ref db.refs.rows ≡ some k
          → P (ok (k, false), db))
      → ((t : Ticket)
          → feature_on db.feature ≡ true
          → has_perm user "ticket:ref" ≡ true
          → find db.tickets i ≡ some t
          → elem type ref_types ≡ true
          → find_ref i type ref db.refs.rows ≡ none
          → P (ok (db.refs.next_id, true), referred user i type ref db))
      → Leaves P (add_ref user i type ref) db
  unfolding add_ref get_row
  after-ref P i type ref h old fresh = after-gate P db user _ _ h λ on may.
      after-fetch P db _ _ _ (h _) λ t is. after-require P db _ _ _ h λ known. after-gets P db _ _ (
        after-new P i type ref (find_ref i type ref db.refs.rows) (λ k. old k t on may is known)
          (fresh t on may is known))
