-- ===== src/Orchestrator/Plan.antt =====
-- The plan of a run: its validation (validate_plan of backend/app/orchestrator/planner.py) and the
-- rounds in which its entries are dispatched (dispatch_ready of
-- backend/app/orchestrator/graph_mode.py).
pub mod Planner
pub mod Known
pub mod Rounds
pub mod Complete
pub mod Graph
pub mod Budget
mod Tests
use concierge_agent.Prelude.{
  ℕ, zero, suc, String, Bool, true, false, not, ◌&&◌, Option, none, some, List, [], ◌∷◌, ◌++◌, map,
  if◌then◌else◌, ltb, ◌==◌, nat_eq, string_eq, contains, select, find_where, length,
}
use concierge_agent.Ambient.Events.{Uuid}

-- The tables that a capability may name.
pub data Kind : Type 0 where
  direct_tool direct_skill sub_agent spin_worker : Kind

pub record PlanCapability : Type 0 where
  pub kind : Kind
  pub id : Option String
  pub skill_ids : Option (List String)

pub record PlanEntry : Type 0 where
  pub id : String
  pub capability : PlanCapability
  pub depends_on : List String

-- A row of a registry.
pub record Row : Type 0 where
  pub id : Uuid
  pub is_deleted : Bool
  pub status : String
  pub direct_exposure : Bool

-- The registries, and UUID(text), `none` for its ValueError. A spin_worker names skills.
pub record Registry : Type 0 where
  pub uuid : String → Option Uuid
  pub rows : Kind → List Row

pub data PlanError : Type 0 where
  too_many : ℕ → ℕ → PlanError
  repeated_ids : PlanError
  reserved_id needs_skill_ids needs_id : String → PlanError
  unknown_dependency self_dependency : String → String → PlanError
  unknown_id unexposed_skill : String → String → PlanError

-- RESERVED_SNAPSHOT_KEYS
abbrev pub reserved_snapshot_keys : List String
reserved_snapshot_keys =
    "settings" ∷ "prompts" ∷ "build" ∷ "context" ∷ "catalog_calls" ∷ "catalog" ∷ "resumes"
    ∷ "direct" ∷ "exemplar_vote" ∷ []

-- session.get(model, UUID(raw_id))
abbrev row_of : Registry → Kind → String → Option Row
row_of reg kind raw_id = elim (reg.uuid raw_id) [
  | none ↦ none
  | some id ↦ find_where (λ (r : Row). r.id == id) (reg.rows kind)
]

-- _exists
unfoldable pub exists : Registry → Kind → String → Bool
exists reg kind raw_id = elim (row_of reg kind raw_id) [
  | none ↦ false
  | some row ↦ not row.is_deleted && row.status == "active"
]

-- _is_exposed
unfoldable pub is_exposed : Registry → String → Bool
is_exposed reg raw_id = elim (row_of reg direct_skill raw_id) [
  | none ↦ false
  | some row ↦ row.direct_exposure
]

pub check_skills : Registry → String → List String → List PlanError
unfolding exists is_exposed
check_skills reg entry [] = []
check_skills reg entry (skill ∷ rest) =
    let later = check_skills reg entry rest in
    if not (exists reg direct_skill skill)
    then unknown_id entry skill ∷ later
    else if not (is_exposed reg skill)
    then unexposed_skill entry skill ∷ later
    else later

pub check_capability : Registry → String → PlanCapability → List PlanError
unfolding check_skills exists
check_capability reg entry cap = elim cap.kind [
  | spin_worker ↦ elim cap.skill_ids [
    | none ↦ needs_skill_ids entry ∷ []
    | some [] ↦ needs_skill_ids entry ∷ []
    | some (skill ∷ rest) ↦ check_skills reg entry (skill ∷ rest)
  ]
  | other ↦ elim cap.id [
    | none ↦ needs_id entry ∷ []
    | some id ↦
        if id == ""
        then needs_id entry ∷ []
        else if exists reg cap.kind id
        then []
        else unknown_id entry id ∷ []
  ]
]

unfoldable pub check_dependencies : List String → String → List String → List PlanError
check_dependencies ids entry [] = []
check_dependencies ids entry (dep ∷ rest) =
    (if contains dep ids then [] else unknown_dependency entry dep ∷ [])
    ++ ((if dep == entry then self_dependency entry dep ∷ [] else [])
        ++ check_dependencies ids entry rest)

unfoldable pub check_entries : Registry → List String → List PlanEntry → List PlanError
unfolding check_dependencies
check_entries reg ids [] = []
check_entries reg ids (e ∷ rest) =
    (if contains e.id reserved_snapshot_keys then reserved_id e.id ∷ [] else [])
    ++ (check_dependencies ids e.id e.depends_on
        ++ (check_capability reg e.id e.capability ++ check_entries reg ids rest))

abbrev pub entry_ids : List PlanEntry → List String
entry_ids entries = map (λ (e : PlanEntry). e.id) entries

-- len({...}) != len(...)
abbrev pub has_repeats : List String → Bool
has_repeats [] = false
has_repeats (id ∷ rest) = let later = has_repeats rest in if contains id rest then true else later

unfoldable pub validate_plan : Registry → ℕ → List PlanEntry → List PlanError
unfolding check_entries
validate_plan reg max_steps entries =
    (if ltb max_steps (length entries) then too_many (length entries) max_steps ∷ [] else [])
    ++ ((if has_repeats (entry_ids entries) then repeated_ids ∷ [] else [])
        ++ check_entries reg (entry_ids entries) entries)

-- The state of the graph: the entries, the ids that have an output, the ids that were resolved.
pub record Run : Type 0 where
  pub entries : List PlanEntry
  pub outputs : List String
  pub resolutions : List String
  pub max_parallel : ℕ

unfoldable pub is_pending : Run → PlanEntry → Bool
is_pending s e = not (contains e.id s.outputs) && contains e.id s.resolutions

abbrev pub all_in : List String → List String → Bool
all_in ids [] = true
all_in ids (dep ∷ rest) = contains dep ids && all_in ids rest

unfoldable pub is_ready : Run → PlanEntry → Bool
unfolding is_pending
is_ready s e = is_pending s e && all_in s.outputs e.depends_on

module _ {ℓ} {A : Type ℓ} where
  abbrev pub take : ℕ → List A → List A
  take zero xs = []
  take (suc n) [] = []
  take (suc n) (x ∷ xs) = x ∷ take n xs

-- The entries that are sent, at most `max_parallel` at once; `none` is "aggregate".
unfoldable pub dispatch_ready : Run → Option (List PlanEntry)
unfolding is_ready
dispatch_ready s = elim (select (is_ready s) s.entries) [
  | [] ↦ none
  | e ∷ rest ↦ some (take s.max_parallel (e ∷ rest))
]

-- The outputs of dispatch_node, merged into the state.
abbrev pub dispatched : Run → List PlanEntry → Run
dispatched s batch = record s { outputs = entry_ids batch ++ s.outputs }

-- Rounds until "aggregate"; `none` if the rounds do not suffice.
unfoldable pub run_plan : ℕ → Run → Option Run
unfolding dispatch_ready
run_plan zero s = none
run_plan (suc n) s = elim (dispatch_ready s) [
  | none ↦ some s
  | some batch ↦ run_plan n (dispatched s batch)
]
