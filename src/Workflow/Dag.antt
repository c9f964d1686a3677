-- ===== src/Workflow/Dag.antt =====
-- `_assert_acyclic` of backend/app/services/workflow_service.py: a depth-first search with three
-- colours. The recursion of `visit` takes fuel; `assert_acyclic` gives it one more than the number
-- of keys, and `Fuel` shows that this is never used up.
mod Reach
mod Finished
mod Stack
mod Fuel
pub mod Correct
use lark_plat.Errors.{Result, ok, err, validation, internal}
use lark_plat.Prelude.{
  ℕ, zero, suc, String, Bool, true, false, List, [], ◌∷◌, length, ◌==◌, string_eq, if◌then◌else◌,
}

pub data Color : Type 0 where
  white gray black : Color

-- the dict `color`, over all texts
abbrev pub Colors : Type 0
Colors = String → Color

pub paint : Colors → String → Color → Colors
paint c n x m = if n == m then x else c m

abbrev pub Edge : Type 0
Edge = String × String

-- adj[node], in the order of the edges
unfoldable pub targets : List Edge → String → List String
targets [] n = []
targets ((src, dst) ∷ es) n = let rest = targets es n in if src == n then dst ∷ rest else rest

-- how a call of `visit` ends; `cycle` is the ValidationError
pub data Search : Type 0 where
  done : Colors → Search
  cycle : Search
  no_fuel : Search

infixl 10 ◌>>=◌
abbrev pub ◌>>=◌ : Search → (Colors → Search) → Search
done c >>= f = f c
cycle >>= f = cycle
no_fuel >>= f = no_fuel

-- the body of the loop over adj[node]
pub visit_next : (String → Colors → Search) → String → Color → Colors → Search
visit_next go next gray c = cycle
visit_next go next white c = go next c
visit_next go next black c = done c

-- the loop over adj[node]
pub visit_all : (String → Colors → Search) → List String → Colors → Search
visit_all go [] c = done c
visit_all go (next ∷ rest) c = visit_next go next (c next) c >>= visit_all go rest

pub visit : ℕ → List Edge → String → Colors → Search
visit zero edges node c = no_fuel
visit (suc fuel) edges node c =
    visit_all (visit fuel edges) (targets edges node) (paint c node gray) >>= λ c'.
    done (paint c' node black)

abbrev pub is_white : Color → Bool
is_white white = true
is_white _ = false

-- the loop over the keys
pub visit_keys : (String → Colors → Search) → List String → Colors → Search
visit_keys go [] c = done c
visit_keys go (k ∷ ks) c = (if is_white (c k) then go k c else done c) >>= visit_keys go ks

pub search_keys : List String → List Edge → Search
search_keys keys edges = visit_keys (visit (suc (length keys)) edges) keys (λ _. white)

-- the search as a computation that returns or raises; no_fuel has an error that the code never raises
abbrev pub outcome : Search → Result (Unit {0})
outcome (done c) = ok tt
outcome cycle = err validation
outcome no_fuel = err internal

unfoldable pub assert_acyclic : List String → List Edge → Result (Unit {0})
unfolding search_keys visit_keys visit visit_all visit_next paint targets
assert_acyclic keys edges = outcome (search_keys keys edges)
