-- ===== src/Workflow/Engine/Bounds.antt =====
-- The bounds of `_timeout_sec` of backend/app/services/workflow_engine.py.
use lark_plat.Prelude.{
  ℕ, ◌≤◌, ◌≡◌, arith, Option, none, some, ltb, Bool-cases, inl, inr, if◌then◌else◌,
}
use lark_plat.Json.{Json, null, bool, num, negative, str, arr, obj, Fields, get, has}
use lark_plat.Workflow.Definition.{NodeType}
use lark_plat.Workflow.Engine.Timeout.{Texts, max_timeout, clamp, timeout_sec}

read :
    (o : Option Json) {t : ℕ}
    → (elim o [
      | some (num n) ↦ if ltb max_timeout n then some max_timeout else some n
      | some (negative n) ↦ some 0
      | _ ↦ none
    ])
      ≡ some t
    → t ≤ max_timeout
read none h = cc
read (some (num n)) h = ground (arith, h)
read (some (negative n)) h = ground (arith, h)
read (some _) h = cc

clamp-bound : (p : Texts) (v : Json) {t : ℕ} → clamp p v ≡ some t → t ≤ max_timeout
unfolding clamp
clamp-bound p (num n) h = ground (arith, h)
clamp-bound p (negative n) h = ground (arith, h)
clamp-bound p (bool b) h = ground (arith, h)
clamp-bound p (str s) h = read (p.int_of s) h
clamp-bound p null h = cc
clamp-bound p (arr xs) h = cc
clamp-bound p (obj f) h = cc

by_type :
    (type : NodeType) {t : ℕ}
    → (elim type [ NodeType.callback ↦ some max_timeout | _ ↦ none ]) ≡ some t
    → t ≤ max_timeout
by_type NodeType.callback h = ground (arith, h)
by_type _ h = cc

by_default :
    (p : Texts) (defaults : Fields) (type : NodeType) {t : ℕ}
    → (if has defaults "timeout_sec"
        then clamp p (get defaults "timeout_sec")
        else (elim type [ NodeType.callback ↦ some max_timeout | _ ↦ none ]))
      ≡ some t
    → t ≤ max_timeout
by_default p defaults type h = elim (Bool-cases (has defaults "timeout_sec")) [
  | inl e ↦ clamp-bound p (get defaults "timeout_sec") (rw e at h)
  | inr e ↦ by_type type (rw e at h)
]

-- Whatever the configuration of a node and the defaults of its definition say, the timeout that the
-- engine applies is at most one day.
pub timeout_sec-bound :
    (p : Texts) (cfg defaults : Fields) (type : NodeType) {t : ℕ}
    → timeout_sec p cfg defaults type ≡ some t
    → t ≤ max_timeout
unfolding timeout_sec
timeout_sec-bound p cfg defaults type h = elim (Bool-cases (has cfg "timeout_sec")) [
  | inl e ↦ clamp-bound p (get cfg "timeout_sec") (rw e at h)
  | inr e ↦ by_default p defaults type (rw e at h)
]
