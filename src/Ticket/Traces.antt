-- ===== src/Ticket/Traces.antt =====
-- Sequences of the requests of backend/app/services/ticket_service.py.
use lark_plat.Prelude.{ℕ, ◌≡◌, ap, ◌∙◌, String, true, some, List, [], ◌∷◌, ◌≢◌, nat_eq}
use lark_plat.Session.{CurrentUser}
use lark_plat.Table.{find}
use lark_plat.Ticket.Model.{TicketStatus, status_in, Ticket, TicketDb}
use lark_plat.Ticket.Lifecycle.{Follows, Edge, serve-Follows}
use lark_plat.Ticket.Requests.{Request, serve, serve-Outcome}
use lark_plat.Ticket.Stamps.{IsSound, Outcome-IsSound}

-- one call of the API
pub record Call : Type 0 where
  pub user : CurrentUser
  pub day : String
  pub now : ℕ
  pub request : Request

unfoldable pub serve_all : List Call → TicketDb → TicketDb
serve_all [] db = db
serve_all (c ∷ cs) db = serve_all cs (serve c.user c.day c.now c.request db).1

-- After any sequence of ticket requests, by any callers, from a database in which it is so: every
-- key is below the next one; a ticket that is assigned, accepted, in processing, done or closed has
-- an assignee; one that is done has the time it was resolved, and one that is closed that and the
-- time it was closed.
pub serve_all-IsSound :
    (calls : List Call) (db : TicketDb) → IsSound db → IsSound (serve_all calls db)
unfolding serve_all
serve_all-IsSound [] db sound = sound
serve_all-IsSound (c ∷ cs) db sound =
    serve_all-IsSound cs _
      (Outcome-IsSound c.user c.now db sound (serve-Outcome c.user c.day c.now db c.request))

edge-live : {s s' : TicketStatus} {perm : String} → Edge s s' perm → s ≢ TicketStatus.cancel
edge-live Edge.assigns = λ e. cc
edge-live Edge.reassigns = λ e. cc
edge-live Edge.accepts = λ e. cc
edge-live Edge.starts = λ e. cc
edge-live Edge.ends = λ e. cc
edge-live Edge.closes = λ e. cc
edge-live Edge.reopens_done = λ e. cc
edge-live Edge.reopens_closed = λ e. cc
edge-live Edge.cancels_new = λ e. cc
edge-live Edge.cancels_assigned = λ e. cc
edge-live Edge.cancels_accepted = λ e. cc
edge-live Edge.cancels_started = λ e. cc

editable-live :
    (s : TicketStatus)
    → status_in s (TicketStatus.create ∷ TicketStatus.assign ∷ []) ≡ true
    → s ≢ TicketStatus.cancel
unfolding status_in
editable-live TicketStatus.cancel h = cc
editable-live _ h = λ e. cc

cancelled-Follows :
    (user : CurrentUser) (t t' : Ticket)
    → t.status ≡ TicketStatus.cancel
    → Follows user t t'
    → t' ≡ t
cancelled-Follows user t t' is (Follows.unchanged e) = e
cancelled-Follows user t t' is (Follows.edits may allowed s v) =
    elim (editable-live t.status allowed is) [ ]
cancelled-Follows user t t' is (Follows.moves edge may v) = elim (edge-live edge is) [ ]

-- In a database that is sound (`IsSound`), a ticket that was cancelled is never changed again,
-- whatever requests follow.
pub serve_all-cancelled :
    (calls : List Call) (db : TicketDb) (i : ℕ) (t : Ticket)
    → IsSound db
    → find db.tickets i ≡ some t
    → t.status ≡ TicketStatus.cancel
    → find (serve_all calls db).tickets i ≡ some t
unfolding serve_all
serve_all-cancelled [] db i t sound is over = is
serve_all-cancelled (c ∷ cs) db i t sound is over =
    let (t', is', follows) = serve-Follows c.user c.day c.now c.request db sound.keyed i t is in
    let eq' = cancelled-Follows c.user t t' over follows in
    serve_all-cancelled cs _ i t
      (Outcome-IsSound c.user c.now db sound (serve-Outcome c.user c.day c.now db c.request))
      (is' ∙ ap some eq') over
