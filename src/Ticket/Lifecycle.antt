-- ===== src/Ticket/Lifecycle.antt =====
-- The life of a ticket over the requests of backend/app/services/ticket_service.py.
use lark_plat.Prelude.{
  ℕ, ◌+◌, ◌≡◌, refl, arith, String, true, Option, none, some, [], ◌∷◌, Bool-cases, inl, inr, ◌==◌,
  nat_eq,
}
use lark_plat.Errors.{AppError}
use lark_plat.Session.{CurrentUser, has_perm}
use lark_plat.Features.{feature_on}
use lark_plat.Table.{Table, find, IsKeyed, find-put}
use lark_plat.Table.Keyed.{find-add-kept}
use mathlib.Core.Path.{subst}
use lark_plat.Ticket.Model.{TicketStatus, Action, allowed_from, status_in, target, Ticket, TicketDb}
use lark_plat.Ticket.Service.{edited}
use lark_plat.Ticket.Requests.{Request, serve, RowStep, Writes, Outcome, serve-Outcome}

-- a move of the lifecycle, with the permission that it takes
pub data Edge : TicketStatus → TicketStatus → String → Type 0 where
  assigns : Edge TicketStatus.create TicketStatus.assign "ticket:assign"
  reassigns : Edge TicketStatus.assign TicketStatus.assign "ticket:assign"
  accepts : Edge TicketStatus.assign TicketStatus.accept "ticket:accept"
  starts : Edge TicketStatus.accept TicketStatus.processing "ticket:process"
  ends : Edge TicketStatus.processing TicketStatus.done "ticket:done"
  closes : Edge TicketStatus.done TicketStatus.close "ticket:close"
  reopens_done : Edge TicketStatus.done TicketStatus.processing "ticket:reopen"
  reopens_closed : Edge TicketStatus.close TicketStatus.processing "ticket:reopen"
  cancels_new : Edge TicketStatus.create TicketStatus.cancel "ticket:cancel"
  cancels_assigned : Edge TicketStatus.assign TicketStatus.cancel "ticket:cancel"
  cancels_accepted : Edge TicketStatus.accept TicketStatus.cancel "ticket:cancel"
  cancels_started : Edge TicketStatus.processing TicketStatus.cancel "ticket:cancel"

-- What one request of a caller may do to a ticket: nothing, an edit of the columns before the work
-- starts, or a move of the lifecycle; the last two take a permission and the next version.
pub data Follows (user : CurrentUser) (t t' : Ticket) : Type 0 where
  unchanged : t' ≡ t → Follows user t t'
  edits :
      has_perm user "ticket:edit" ≡ true
      → status_in t.status (TicketStatus.create ∷ TicketStatus.assign ∷ []) ≡ true
      → t'.status ≡ t.status
      → t'.version ≡ t.version + 1
      → Follows user t t'
  moves :
      {perm : String}
      → Edge t.status t'.status perm
      → has_perm user perm ≡ true
      → t'.version ≡ t.version + 1
      → Follows user t t'

-- every ticket of `db` is in `db'`, and went there by one step of the caller
abbrev pub KeepsTickets : CurrentUser → TicketDb → TicketDb → Type 0
KeepsTickets user db db' =
    (i : ℕ) (t : Ticket)
    → find db.tickets i ≡ some t
    → (t' : Ticket) × (find db'.tickets i ≡ some t') × Follows user t t'

abbrev perm_of : Action → String
perm_of Action.assign = "ticket:assign"
perm_of Action.accept = "ticket:accept"
perm_of Action.process = "ticket:process"
perm_of Action.done = "ticket:done"
perm_of Action.close = "ticket:close"
perm_of Action.reopen = "ticket:reopen"
perm_of Action.cancel = "ticket:cancel"

allowed-Edge :
    (a : Action) (s : TicketStatus)
    → status_in s (allowed_from a) ≡ true
    → Edge s (target a) (perm_of a)
unfolding status_in allowed_from target
allowed-Edge Action.assign TicketStatus.create h = assigns
allowed-Edge Action.assign TicketStatus.assign h = reassigns
allowed-Edge Action.accept TicketStatus.assign h = accepts
allowed-Edge Action.process TicketStatus.accept h = starts
allowed-Edge Action.done TicketStatus.processing h = ends
allowed-Edge Action.close TicketStatus.done h = closes
allowed-Edge Action.reopen TicketStatus.done h = reopens_done
allowed-Edge Action.reopen TicketStatus.close h = reopens_closed
allowed-Edge Action.cancel TicketStatus.create h = cancels_new
allowed-Edge Action.cancel TicketStatus.assign h = cancels_assigned
allowed-Edge Action.cancel TicketStatus.accept h = cancels_accepted
allowed-Edge Action.cancel TicketStatus.processing h = cancels_started
allowed-Edge _ _ h = cc

module _ (user : CurrentUser) (now : ℕ) where
  RowStep-Follows : (t : Ticket) {t' : Ticket} → RowStep user now t t' → Follows user t t'
  unfolding edited
  RowStep-Follows t (RowStep.edits u may allowed) = edits may allowed refl refl
  RowStep-Follows t (RowStep.assigns a may allowed) =
      moves (allowed-Edge Action.assign _ allowed) may refl
  RowStep-Follows t (RowStep.accepts may allowed) =
      moves (allowed-Edge Action.accept _ allowed) may refl
  RowStep-Follows t (RowStep.processes may allowed) =
      moves (allowed-Edge Action.process _ allowed) may refl
  RowStep-Follows t (RowStep.closes may allowed) =
      moves (allowed-Edge Action.close _ allowed) may refl
  RowStep-Follows t (RowStep.reopens may allowed) =
      moves (allowed-Edge Action.reopen _ allowed) may refl
  RowStep-Follows t (RowStep.cancels may allowed) =
      moves (allowed-Edge Action.cancel _ allowed) may refl
  RowStep-Follows t (RowStep.resolves may allowed) =
      moves (allowed-Edge Action.done _ allowed) may refl

same_row :
    {t t' : Ticket} (x : Table Ticket) (i j : ℕ)
    → find x i ≡ some t
    → find x j ≡ some t'
    → (i == j) ≡ true
    → t ≡ t'
same_row x i j is is' e = ground (arith, is, is', e)

module _ (user : CurrentUser) (now : ℕ) where
  Writes-Follows :
      (db : TicketDb) {db' : TicketDb}
      → IsKeyed db.tickets
      → Writes user now db db'
      → KeepsTickets user db db'
  Writes-Follows db keyed (Writes.row i t t' is step e) j t₀ is₀ = elim (Bool-cases (i == j)) [
    | inl eq' ↦ (
      t',
      ground (arith, e, eq', find-put db.tickets i j t' {b = t} is),
      subst (λ t. Follows user t t') (same_row db.tickets i j is is₀ eq')
          (RowStep-Follows user now t step),
    )
    | inr ne ↦
        (t₀, ground (arith, e, ne, is₀, find-put db.tickets i j t' {b = t} is), unchanged refl)
  ]
  Writes-Follows db keyed (Writes.created c t _ _ e) j t₀ is₀ =
      (t₀, rw e (find-add-kept db.tickets t j keyed is₀), unchanged refl)
  Writes-Follows db keyed (Writes.beside e) j t₀ is₀ = (t₀, rw e is₀, unchanged refl)

  Outcome-Follows :
      (db : TicketDb) {r : Option AppError × TicketDb}
      → IsKeyed db.tickets
      → Outcome user now db r
      → KeepsTickets user db r.1
  Outcome-Follows db keyed (Outcome.raised e) j t is = (t, is, unchanged refl)
  Outcome-Follows db keyed (Outcome.wrote db' on writes) j t is =
      Writes-Follows db keyed writes j t is

-- Where all keys of tickets are below the next one, whatever a caller asks for and whether or not
-- it is refused, no ticket is lost, and each is as it was, or was edited before the work on it
-- started, or moved along one edge of the lifecycle, with the permission for it and one version up.
pub serve-Follows :
    (user : CurrentUser) (day : String) (now : ℕ) (r : Request) (db : TicketDb)
    → IsKeyed db.tickets
    → KeepsTickets user db (serve user day now r db).1
serve-Follows user day now r db keyed =
    Outcome-Follows user now db keyed (serve-Outcome user day now db r)

settled :
    (user : CurrentUser) (now : ℕ) (db : TicketDb) {r : Option AppError × TicketDb}
    → Outcome user now db r
    → (((e : AppError) → r.0 ≡ some e → r.1 ≡ db) × (r.0 ≡ none → feature_on db.feature ≡ true))
settled user now db (Outcome.raised e) = ((λ _ _. refl), λ h. cc)
settled user now db (Outcome.wrote db' on writes) = ((λ e h. cc), λ _. on)

-- A ticket request that raises leaves the database as it found it, and one that succeeds found the
-- feature flag on.
pub serve-IsAtomic :
    (user : CurrentUser) (day : String) (now : ℕ) (r : Request) (db : TicketDb)
    → (((e : AppError) → (serve user day now r db).0 ≡ some e → (serve user day now r db).1 ≡ db)
        × ((serve user day now r db).0 ≡ none → feature_on db.feature ≡ true))
serve-IsAtomic user day now r db = settled user now db (serve-Outcome user day now db r)
