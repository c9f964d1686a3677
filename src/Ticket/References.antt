-- ===== src/Ticket/References.antt =====
-- The references of a ticket: add_ref and done_ticket of backend/app/services/ticket_service.py.
use lark_plat.Prelude.{
  ℕ, suc, ◌≡◌, refl, ap, ◌∙◌, arith, String, Bool, true, false, Option, none, some, List, [], ◌∷◌,
  ◌++◌, elem, eq_iff, ◌≢◌, nat_eq, string_eq,
}
use lark_plat.Errors.{AppError, ok, err}
use lark_plat.Session.{request, CurrentUser, has_perm, require_perm, ◌>>=◌}
use lark_plat.Session.After.{Leaves}
use lark_plat.Features.{feature_on, require_feature}
use lark_plat.Table.{find, add}
use lark_plat.Ticket.Model.{ref_types, Ticket, TicketRef, TicketDb}
use lark_plat.Ticket.Refs.{find_ref, insert_ref, exec_ref}
use lark_plat.Ticket.Service.{gate, get_row, new_ref, add_ref, done_ticket}
use lark_plat.Ticket.After.{after-ref, after-done, referred}

find_ref-append :
    (i : ℕ) (type : String) (ref n : ℕ) (by : Option ℕ) (rows : List (ℕ × TicketRef))
    → find_ref i type ref rows ≡ none
    → find_ref i type ref
        (rows ++ (n, record { ticket_id = i; ref_type = type; ref_id = ref; created_by = by }) ∷ [])
      ≡ some n
unfolding find_ref
find_ref-append i type ref n by [] h = ground (arith, eq_iff type type)
find_ref-append i type ref n by ((k, r) ∷ rows) h =
    ground (arith, h, find_ref-append i type ref n by rows)

module _ (user : CurrentUser) (i : ℕ) (type : String) (ref : ℕ) where
  add_ref-found :
      (db : TicketDb) (k : ℕ) (t : Ticket)
      → feature_on db.feature ≡ true
      → has_perm user "ticket:ref" ≡ true
      → find db.tickets i ≡ some t
      → elem type ref_types ≡ true
      → find_ref i type ref db.refs.rows ≡ some k
      → request (add_ref user i type ref) db ≡ (ok (k, false), db)
  unfolding add_ref gate get_row new_ref require_feature require_perm ◌>>=◌
  add_ref-found db k t on may is known there = ground (arith, on, may, is, known, there)

  -- Adding a reference twice: the second call answers the id of the first, says that nothing was
  -- created, and leaves the database as the first call left it.
  pub add_ref-again :
      (db : TicketDb) (k : ℕ) (created : Bool)
      → (request (add_ref user i type ref) db).0 ≡ ok (k, created)
      → request (add_ref user i type ref) (request (add_ref user i type ref) db).1
        ≡ (ok (k, false), (request (add_ref user i type ref) db).1)
  unfolding Leaves add
  add_ref-again db k created h =
      after-ref user db
        (λ r.
          (k : ℕ) (created : Bool)
          → r.0 ≡ ok (k, created)
          → request (add_ref user i type ref) r.1 ≡ (ok (k, false), r.1))
        i type ref (λ e k created h. cc)
        (λ old t on may is known there k created h.
          add_ref-found db old t on may is known there ∙ ap (λ k. (ok (k, false), db)) cc)
        (λ t on may is known there k created h.
          add_ref-found (referred user i type ref db) db.refs.next_id t on may is known
            (find_ref-append i type ref db.refs.next_id (some user.id) db.refs.rows there)
          ∙ ap (λ k. (ok (k, false), referred user i type ref db)) cc)
        k created h

exec_ref-taken :
    (user : CurrentUser) (i task k : ℕ) (s : TicketDb) {s' : TicketDb}
    → find_ref i "exec_task" (suc task) s.refs.rows ≡ some k
    → exec_ref user i (some (suc task)) s ≢ ok s'
unfolding exec_ref insert_ref
exec_ref-taken user i task k s there = λ made. cc

-- While a ticket refers to an execution task, done_ticket never succeeds with that task again: it
-- raises, and the database keeps the ticket as it was.
pub done_ticket-same_task :
    (user : CurrentUser) (i task now k : ℕ) (db : TicketDb)
    → find_ref i "exec_task" (suc task) db.refs.rows ≡ some k
    → (e : AppError) × (request (done_ticket user i (some (suc task)) now) db ≡ (err e, db))
unfolding Leaves
done_ticket-same_task user i task now k db there =
    after-done (λ r. (e : AppError) × (r ≡ (err e, db))) user i db (some (suc task)) now
      (λ e. (e, refl))
      λ t next' on may is allowed made. elim (exec_ref-taken user i task k _ there made) [ ]
