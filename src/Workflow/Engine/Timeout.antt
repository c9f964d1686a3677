-- ===== src/Workflow/Engine/Timeout.antt =====
-- `_cfg`, `_timeout_sec`, `_elapsed` and the due test of wait and sleep nodes.
use lark_plat.Prelude.{
  any, ◌==◌, string_eq, ℕ, suc, ◌+◌, ◌*◌, String, Bool, true, false, ◌&&◌, Option, none, some, leb,
  ltb, if◌then◌else◌,
}
use lark_plat.Exec.Text.{contains}
use lark_plat.Json.{
  Json, null, bool, num, negative, str, arr, obj, items, Fields, end, get, has, truthy,
}
use lark_plat.Errors.{Result, ok, err, internal}
use lark_plat.Workflow.Definition.{NodeDef, NodeType, callback}
use lark_plat.Workflow.Model.{NodeRun}

-- What Python makes of texts: `int(s)`, `float(s)` in microseconds, `datetime.fromisoformat`.
pub record Texts : Type 0 where
  pub int_of : String → Option Json
  pub float_of : String → Option ℕ
  pub instant_of : Json → Option ℕ

abbrev pub max_timeout : ℕ
max_timeout = 86400

abbrev pub callback_default_timeout : ℕ
callback_default_timeout = 86400

abbrev pub second : ℕ
second = 1000000

-- (defnode or {}).get("config"), which `_cfg` reads
abbrev pub config_of : Option NodeDef → Json
config_of none = null
config_of (some d) = d.config

-- `config or {}`, for `.get`, which only an object has
unfoldable pub config_fields : Json → Result Fields
config_fields (obj f) = ok f
config_fields value = if truthy value then err internal else ok end

abbrev pub is_timeout_key : Json → Bool
is_timeout_key (str s) = s == "timeout_sec"
is_timeout_key _ = false

-- `config or {}`, for the test `"timeout_sec" in` and the look-up: a list and a text have the test
-- too, but not the look-up
unfoldable pub config_for_timeout : Json → Result Fields
config_for_timeout (obj f) = ok f
config_for_timeout (arr xs) = if any is_timeout_key (items xs) then err internal else ok end
config_for_timeout (str s) = if contains "timeout_sec" s then err internal else ok end
config_for_timeout value = if truthy value then err internal else ok end

-- int(t) with the two tests; a text that `int` reads gives a number
unfoldable pub clamp : Texts → Json → Option ℕ
clamp p (num n) = if ltb max_timeout n then some max_timeout else some n
clamp p (negative n) = some 0
clamp p (bool b) = some (if b then 1 else 0)
clamp p (str s) = elim (p.int_of s) [
  | some (num n) ↦ if ltb max_timeout n then some max_timeout else some n
  | some (negative n) ↦ some 0
  | _ ↦ none
]
clamp p _ = none

-- `_timeout_sec(defnode, definition, node_type)`, in seconds
unfoldable pub timeout_sec : Texts → Fields → Fields → NodeType → Option ℕ
unfolding clamp
timeout_sec p config defaults type =
    if has config "timeout_sec"
    then clamp p (get config "timeout_sec")
    else if has defaults "timeout_sec"
    then clamp p (get defaults "timeout_sec")
    else elim type [ callback ↦ some callback_default_timeout | _ ↦ none ]

-- node.started_at or node.updated_at or node.created_at
abbrev pub first : Option ℕ → Option ℕ → Option ℕ
first none b = b
first (some a) b = some a

abbrev pub start_of : NodeRun → Option ℕ
start_of n = first n.started_at (first n.updated_at n.created_at)

-- _elapsed(node) >= d, in microseconds
unfoldable pub elapsed_ge : Option ℕ → ℕ → ℕ → Bool
elapsed_ge none now d = leb d 0
elapsed_ge (some start) now d = leb (start + d) now

-- to is not None and _elapsed(node) >= to
unfoldable pub timed_out : Option ℕ → NodeRun → ℕ → Bool
unfolding elapsed_ge
timed_out none n now = false
timed_out (some t) n now = elapsed_ge (start_of n) now (t * second)

-- _elapsed(node) >= float(duration or 0)
unfoldable pub duration_due : Texts → Json → NodeRun → ℕ → Result Bool
unfolding elapsed_ge
duration_due p (num d) n now = ok (elapsed_ge (start_of n) now (d * second))
duration_due p (bool b) n now = ok (elapsed_ge (start_of n) now (if b then second else 0))
duration_due p (negative d) n now =
    ok (elim (start_of n) [ none ↦ true | some start ↦ leb start (now + suc d * second) ])
duration_due p (str s) n now =
    if truthy (str s) then parsed (p.float_of s) else ok (elapsed_ge (start_of n) now 0)
  where
    parsed : Option ℕ → Result Bool
    parsed none = err internal
    parsed (some d) = ok (elapsed_ge (start_of n) now d)
duration_due p v n now = if truthy v then err internal else ok (elapsed_ge (start_of n) now 0)

-- whether a wait or sleep node is due
unfoldable pub due_reached : Texts → Bool → Fields → NodeRun → ℕ → Result Bool
unfolding duration_due
due_reached p is_wait config n now =
    if is_wait && truthy (get config "until")
    then ok (elim (p.instant_of (get config "until")) [ none ↦ true | some due ↦ leb due now ])
    else duration_due p (get config "duration_sec") n now
