-- ===== src/Orchestrator/Plan/Known.antt =====
-- The dependencies of a valid plan (backend/app/orchestrator/planner.py).
use concierge_agent.Prelude.{
  ℕ, ◌≡◌, ◌≢◌, String, true, List, [], ◌∷◌, if◌then◌else◌, ltb, length, contains, All,
  nil_of_append, if-both, ◌==◌, string_eq,
}
use concierge_agent.Orchestrator.Plan.{
  PlanEntry, Registry, PlanError, repeated_ids, too_many, reserved_id, unknown_dependency,
  self_dependency, check_capability, check_dependencies, check_entries, entry_ids, validate_plan,
  has_repeats, reserved_snapshot_keys,
}

-- Each dependency is the id of an entry.
abbrev pub HasKnown : List String → PlanEntry → Type 0
HasKnown ids e = All (λ dep. contains dep ids ≡ true) e.depends_on

cons-ne : (e : PlanError) (es : List PlanError) → e ∷ es ≢ []
cons-ne e es h = cc

check_dependencies-known :
    (ids : List String) (entry : String) (deps : List String)
    → check_dependencies ids entry deps ≡ []
    → All (λ dep. contains dep ids ≡ true) deps
unfolding check_dependencies
check_dependencies-known ids entry [] h = tt
check_dependencies-known ids entry (dep ∷ rest) h =
    let known = if contains dep ids then [] else unknown_dependency entry dep ∷ [] in
    let (a, b) = nil_of_append known _ h in
    let (c, d) = nil_of_append (if dep == entry then self_dependency entry dep ∷ [] else []) _ b in
    (
      if-both (λ (l : List PlanError). l ≡ [] → contains dep ids ≡ true) (contains dep ids) []
          (unknown_dependency entry dep ∷ []) (λ e k. e) (λ e k. absurd (cons-ne _ [] k)) a,
      check_dependencies-known ids entry rest d,
    )

check_entries-known :
    (reg : Registry) (ids : List String) (entries : List PlanEntry)
    → check_entries reg ids entries ≡ []
    → All (HasKnown ids) entries
unfolding check_entries
check_entries-known reg ids [] h = tt
check_entries-known reg ids (e ∷ rest) h =
    let (a, b) =
      nil_of_append (if contains e.id reserved_snapshot_keys then reserved_id e.id ∷ [] else []) _
        h in
    let (c, d) = nil_of_append (check_dependencies ids e.id e.depends_on) _ b in
    let (f, g) = nil_of_append (check_capability reg e.id e.capability) _ d in
    (check_dependencies-known ids e.id e.depends_on c, check_entries-known reg ids rest g)

pub validate_plan-known :
    (reg : Registry) (max_steps : ℕ) (entries : List PlanEntry)
    → validate_plan reg max_steps entries ≡ []
    → All (HasKnown (entry_ids entries)) entries
unfolding validate_plan
validate_plan-known reg max_steps entries h =
    let (a, b) =
      nil_of_append
        (if ltb max_steps (length entries) then too_many (length entries) max_steps ∷ [] else []) _
        h in
    let (c, d) =
      nil_of_append (if has_repeats (entry_ids entries) then repeated_ids ∷ [] else []) _ b in
    check_entries-known reg (entry_ids entries) entries d
