-- ===== src/Workflow/Service/History.antt =====
-- The versions of workflows as a map from a workflow and a version to a definition, and what the
-- queries and writes of backend/app/services/workflow_service.py are on it.
use lark_plat.Prelude.{
  ℕ, ◌+◌, ◌<◌, ◌≡◌, refl, arith, ◌&&◌, Option, none, some, List, [], ◌∷◌, ◌++◌, All, ◌==◌, nat_eq,
  if◌then◌else◌, Bool-cases, inl, inr,
}
use lark_plat.Json.{Fields, obj}
use lark_plat.Errors.{ok}
use lark_plat.Workflow.Definition.{validate_definition}
use lark_plat.Workflow.Model.{VersionRow}
use lark_plat.Workflow.Service.Model.{WorkflowDb, version_row, max_version, next_version}
use lark_plat.Workflow.Service.Versions.{drop_versions}

abbrev pub History : Type 0
History = ℕ → ℕ → Option Fields

abbrev pub definition_at : Option VersionRow → Option Fields
definition_at none = none
definition_at (some v) = some v.definition

-- the history that a database stores
abbrev pub history : WorkflowDb → History
history s i v = definition_at (version_row i v s.versions.rows)

-- `_validate_definition` accepts it
abbrev pub IsValidated : Fields → Type 0
IsValidated d = validate_definition (obj d) ≡ ok (obj d)

-- What an operation may do to the history: nothing; add a version that was not there, with a
-- validated definition; or remove a workflow with all its versions.
pub data HistoryStep (h h' : History) : Type 0 where
  kept : ((i v : ℕ) → h' i v ≡ h i v) → HistoryStep h h'
  appended :
      (i v : ℕ) (d : Fields)
      → h i v ≡ none
      → IsValidated d
      → ((j u : ℕ) → h' j u ≡ (if i == j && v == u then some d else h j u))
      → HistoryStep h h'
  dropped : (i : ℕ) → ((j u : ℕ) → h' j u ≡ (if i == j then none else h j u)) → HistoryStep h h'

version_row-max :
    (i v : ℕ) (rows : List (ℕ × VersionRow)) → max_version i rows < v → version_row i v rows ≡ none
unfolding version_row max_version
version_row-max i v [] h = refl
version_row-max i v ((k, r) ∷ rows) h = ground (arith, h, version_row-max i v rows)

-- the next version is free
pub version_row-next :
    (i : ℕ) (rows : List (ℕ × VersionRow)) → version_row i (next_version i rows) rows ≡ none
unfolding next_version
version_row-next i rows = version_row-max i (max_version i rows + 1) rows (omega arith)

pub version_row-below :
    (n v : ℕ) (rows : List (ℕ × VersionRow))
    → All (λ (r : ℕ × VersionRow). r.1.workflow_id < n) rows
    → version_row n v rows ≡ none
unfolding version_row
version_row-below n v [] h = refl
version_row-below n v ((k, r) ∷ rows) h = ground (arith, h.0, version_row-below n v rows h.1)

pub version_row-append :
    (rows : List (ℕ × VersionRow)) (k : ℕ) (r : VersionRow) (j u : ℕ)
    → version_row r.workflow_id r.version rows ≡ none
    → version_row j u (rows ++ (k, r) ∷ [])
      ≡ (if r.workflow_id == j && r.version == u then some r else version_row j u rows)
unfolding version_row
version_row-append [] k r j u h = refl
version_row-append ((m, x) ∷ rows) k r j u h =
    elim (Bool-cases (x.workflow_id == r.workflow_id && x.version == r.version)) [
      | inl e ↦ ground (arith, e, h)
      | inr e ↦
          let more = version_row-append rows k r j u (ground (arith, e, h)) in
          ground (arith, e, more)
    ]

pub version_row-drop :
    (i j u : ℕ) (rows : List (ℕ × VersionRow))
    → version_row j u (drop_versions i rows) ≡ (if i == j then none else version_row j u rows)
unfolding version_row drop_versions
version_row-drop i j u [] = ground arith
version_row-drop i j u ((m, x) ∷ rows) = ground (arith, version_row-drop i j u rows)
