-- ===== src/Exec/SoundRows.antt =====
-- The correspondence of tasks and approvals over tables, and the optimistic updates of rows
-- (backend/app/repositories/__init__.py).
use lark_plat.Prelude.{
  ℕ, ◌+◌, ◌<◌, ◌≡◌, refl, sym, ap, ◌∙◌, arith, Option, none, some, ◌==◌, nat_eq,
}
use mathlib.Core.Path.{subst}
use lark_plat.Errors.{ok}
use lark_plat.Statuses.{TaskStatus}
use lark_plat.Table.{Table, find, put, IsKeyed, find-put}
use lark_plat.Approval.Model.{Approval, ExecTask}
use lark_plat.Approval.Service.{is_awaiting}
use lark_plat.Exec.Model.{optimistic_update, set_task, task_code}
use lark_plat.Exec.Hold.{move_task}
use lark_plat.Exec.Paired.{Puts, Paired}

-- the keys are in order, and the rows correspond
pub record IsSound (t : Table ExecTask) (a : Table Approval) : Type 0 where
  pub keyed_t : IsKeyed t
  pub keyed_a : IsKeyed a
  pub positive : 0 < a.next_id
  pub paired : Paired (find t) (find a)

pub IsSound-along :
    {t t' : Table ExecTask} {a a' : Table Approval} → t ≡ t' → a ≡ a' → IsSound t a → IsSound t' a'
IsSound-along {t = t} {a' = a'} e e' sound =
    subst (λ u. IsSound u a') e (subst (λ b. IsSound t b) e' sound)

-- an optimistic update that goes through: the row had the status, and has the new one
pub optimistic_update_lem :
    (i : ℕ) (source target : TaskStatus) (version : ℕ) (t : Table ExecTask) {t' : Table ExecTask}
    → optimistic_update i source target version t ≡ some t'
    → (x : ExecTask) × (find t i ≡ some x)
      × (task_code x.status ≡ task_code source)
      × (t' ≡ put t i (record x { status = target; version = version + 1 }))
unfolding optimistic_update
optimistic_update_lem i source target version t {t'} h = moved (find t i) refl h
  where
    moved :
        (o : Option ExecTask)
        → find t i ≡ o
        → optimistic_update i source target version t ≡ some t'
        → (x : ExecTask) × (find t i ≡ some x)
          × (task_code x.status ≡ task_code source)
          × (t' ≡ put t i (record x { status = target; version = version + 1 }))
    moved none e h = ground (arith, e, h)
    moved (some x) e h = (x, e, ground (arith, e, h), ground (arith, e, h))

pub move_task-some :
    (i : ℕ) (source target : TaskStatus) (version : ℕ) (t : Table ExecTask) {t' : Table ExecTask}
    → move_task i source target version t ≡ ok t'
    → optimistic_update i source target version t ≡ some t'
unfolding move_task
move_task-some i source target version t h = ground (arith, h)

awaiting_code : (s : TaskStatus) → is_awaiting s ≡ (task_code s == 1)
awaiting_code s = ground arith

pub same_code : (s s' : TaskStatus) → task_code s ≡ task_code s' → is_awaiting s ≡ is_awaiting s'
same_code s s' e = awaiting_code s ∙ ap (λ n. n == 1) e ∙ sym (awaiting_code s')

pub set_task-put :
    (i : ℕ) (change : ExecTask → ExecTask) (t : Table ExecTask) {x : ExecTask}
    → find t i ≡ some x
    → set_task i change t ≡ put t i (change x)
unfolding set_task
set_task-put i change t is = ground (arith, is)

-- two changes of one row
pub put-put :
    {A : Type 0} (t : Table A) (i : ℕ) (x y z : A)
    → find t i ≡ some x
    → Puts i z (find t) (find (put (put t i y) i z))
put-put t i x y z is j = ground (
  arith,
  find-put (put t i y) i j z {b = y},
  find-put t i i y {b = x} is,
  find-put t i j y {b = x} is,
)
