-- ===== src/Ticket/Stamps.antt =====
-- What the columns of a ticket say about its status under the requests of
-- backend/app/services/ticket_service.py.
use lark_plat.Prelude.{
  ℕ, zero, suc, ◌≡◌, refl, sym, arith, Bool, true, false, Option, none, some, Bool-cases, ◌⊎◌, inl,
  inr, ◌≢◌, ◌==◌, nat_eq, if◌then◌else◌,
}
use mathlib.Core.Path.{subst}
use lark_plat.Errors.{AppError}
use lark_plat.Session.{CurrentUser}
use lark_plat.Table.{Table, find, put, add, IsKeyed, find-put, find-add}
use lark_plat.Table.Keyed.{add-IsKeyed, put-IsKeyed}
use lark_plat.Ticket.Model.{TicketStatus, Action, allowed_from, status_in, target, Ticket, TicketDb}
use lark_plat.Ticket.Refs.{TicketCreate}
use lark_plat.Ticket.Service.{or_keep_some, edited, given}
use lark_plat.Ticket.After.{assigned, first_status}
use lark_plat.Ticket.Requests.{RowStep, Writes, Outcome}

abbrev is_some {ℓ} : {A : Type ℓ} → Option A → Bool
is_some none = false
is_some (some a) = true

-- the statuses of a ticket that someone works on, or has worked on
abbrev pub is_assigned : TicketStatus → Bool
is_assigned TicketStatus.create = false
is_assigned TicketStatus.cancel = false
is_assigned _ = true

abbrev pub is_resolved : TicketStatus → Bool
is_resolved TicketStatus.done = true
is_resolved TicketStatus.close = true
is_resolved _ = false

abbrev pub is_closed : TicketStatus → Bool
is_closed TicketStatus.close = true
is_closed _ = false

-- a ticket that is assigned has an assignee, one that is done the time of that, one that is closed
-- both times
abbrev pub IsStamped : Ticket → Type 0
IsStamped t =
    (is_assigned t.status ≡ true → is_some t.assignee_id ≡ true)
    × (is_resolved t.status ≡ true → is_some t.resolved_at ≡ true)
    × (is_closed t.status ≡ true → is_some t.closed_at ≡ true)

pub record IsSound (db : TicketDb) : Type 0 where
  pub keyed : IsKeyed db.tickets
  pub stamped : (i : ℕ) (t : Ticket) → find db.tickets i ≡ some t → IsStamped t

allowed-is_assigned :
    (a : Action) (s : TicketStatus)
    → status_in s (allowed_from a) ≡ true
    → is_assigned (target a) ≡ true
    → (a ≡ Action.assign) ⊎ (is_assigned s ≡ true)
unfolding status_in allowed_from target
allowed-is_assigned Action.assign s h k = inl refl
allowed-is_assigned a TicketStatus.create h k = cc
allowed-is_assigned a TicketStatus.cancel h k = cc
allowed-is_assigned a _ h k = inr refl

allowed-is_resolved :
    (s : TicketStatus) → status_in s (allowed_from Action.close) ≡ true → is_resolved s ≡ true
unfolding status_in allowed_from
allowed-is_resolved TicketStatus.done h = refl
allowed-is_resolved _ h = cc

-- a move to a status that is assigned, from one that is
kept_assignee :
    (a : Action) (t : Ticket)
    → a ≢ Action.assign
    → status_in t.status (allowed_from a) ≡ true
    → IsStamped t
    → is_assigned (target a) ≡ true
    → is_some t.assignee_id ≡ true
kept_assignee a t ne allowed h k = elim (allowed-is_assigned a t.status allowed k) [
  | inl eq' ↦ elim (ne eq') [ ]
  | inr before ↦ h.0 before
]

edited-assignee : (new old : Option ℕ) → is_some old ≡ true → is_some (or_keep_some new old) ≡ true
edited-assignee none old h = h
edited-assignee (some n) old h = refl

RowStep-IsStamped :
    (user : CurrentUser) (now : ℕ) (t : Ticket) {t' : Ticket}
    → IsStamped t
    → RowStep user now t t'
    → IsStamped t'
unfolding edited target
RowStep-IsStamped user now t h (RowStep.edits u may allowed) =
    ((λ x. edited-assignee u.assignee_id t.assignee_id (h.0 x)), h.1, h.2)
RowStep-IsStamped user now t h (RowStep.assigns a may allowed) = ((λ x. refl), (λ x. cc), λ x. cc)
RowStep-IsStamped user now t h (RowStep.accepts may allowed) =
    (kept_assignee Action.accept t (λ e. cc) allowed h, (λ x. cc), λ x. cc)
RowStep-IsStamped user now t h (RowStep.processes may allowed) =
    (kept_assignee Action.process t (λ e. cc) allowed h, (λ x. cc), λ x. cc)
RowStep-IsStamped user now t h (RowStep.closes may allowed) = (
  kept_assignee Action.close t (λ e. cc) allowed h,
  (λ x. h.1 (allowed-is_resolved t.status allowed)),
  λ x. refl,
)
RowStep-IsStamped user now t h (RowStep.reopens may allowed) =
    (kept_assignee Action.reopen t (λ e. cc) allowed h, (λ x. cc), λ x. cc)
RowStep-IsStamped user now t h (RowStep.cancels may allowed) = ((λ x. cc), (λ x. cc), λ x. cc)
RowStep-IsStamped user now t h (RowStep.resolves may allowed) =
    (kept_assignee Action.done t (λ e. cc) allowed h, (λ x. refl), λ x. cc)

first-IsStamped :
    (o : Option ℕ) (s : TicketStatus)
    → s ≡ (if given o then TicketStatus.assign else TicketStatus.create)
    → (is_assigned s ≡ true → is_some o ≡ true) × (is_resolved s ≡ false) × (is_closed s ≡ false)
first-IsStamped none s e = ((λ x. cc), cc, cc)
first-IsStamped (some zero) s e = ((λ x. refl), cc, cc)
first-IsStamped (some (suc n)) s e = ((λ x. refl), cc, cc)

new-IsStamped :
    (c : TicketCreate) (t : Ticket)
    → t.status ≡ first_status c
    → t.assignee_id ≡ c.assignee_id
    → IsStamped t
new-IsStamped c t s a =
    let (assigned, unresolved, open_) = first-IsStamped c.assignee_id t.status s in
    ((λ x. rw a (assigned x)), (λ x. cc), λ x. cc)

new_row :
    (x : Table Ticket) (t t₀ : Ticket) (j : ℕ)
    → IsKeyed x
    → (x.next_id == j) ≡ true
    → find (add x t) j ≡ some t₀
    → t ≡ t₀
new_row x t t₀ j keyed e is = ground (arith, e, is, find-add x t j keyed)

put_row_is :
    (x : Table Ticket) (i j : ℕ) (t' t₀ : Ticket) {t : Ticket}
    → find x i ≡ some t
    → (i == j) ≡ true
    → find (put x i t') j ≡ some t₀
    → t' ≡ t₀
put_row_is x i j t' t₀ {t} is e is₀ = ground (arith, e, is₀, find-put x i j t' {b = t} is)

module _ (user : CurrentUser) (now : ℕ) (db : TicketDb) (sound : IsSound db) where
  Writes-IsSound : {db' : TicketDb} → Writes user now db db' → IsSound db'
  Writes-IsSound (Writes.row i t t' is step e) = record {
    keyed = rw e (put-IsKeyed db.tickets i t' sound.keyed);
    stamped = λ j t₀ is₀. elim (Bool-cases (i == j)) [
      | inl eq' ↦
          subst IsStamped (put_row_is db.tickets i j t' t₀ is eq' (rw (sym e) is₀))
            (RowStep-IsStamped user now t (sound.stamped i t is) step)
      | inr ne ↦
          sound.stamped j t₀ (ground (arith, ne, e, is₀, find-put db.tickets i j t' {b = t} is))
    ];
  }
  Writes-IsSound (Writes.created c t s a e) = record {
    keyed = rw e (add-IsKeyed db.tickets t sound.keyed);
    stamped = λ j t₀ is₀. elim (Bool-cases (db.tickets.next_id == j)) [
      | inl eq' ↦
          subst IsStamped (new_row db.tickets t t₀ j sound.keyed eq' (rw (sym e) is₀))
            (new-IsStamped c t s a)
      | inr ne ↦
          sound.stamped j t₀ (ground (arith, ne, e, is₀, find-add db.tickets t j sound.keyed))
    ];
  }
  Writes-IsSound (Writes.beside e) = record {
    keyed = rw e sound.keyed;
    stamped = λ j t₀ is₀. sound.stamped j t₀ (ground (arith, e, is₀));
  }

  pub Outcome-IsSound : {r : Option AppError × TicketDb} → Outcome user now db r → IsSound r.1
  Outcome-IsSound (Outcome.raised e) = sound
  Outcome-IsSound (Outcome.wrote db' on writes) = Writes-IsSound writes
