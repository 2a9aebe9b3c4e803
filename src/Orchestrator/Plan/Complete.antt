-- ===== src/Orchestrator/Plan/Complete.antt =====
-- The end of the rounds: each entry has an output (backend/app/orchestrator/graph_mode.py,
-- backend/app/orchestrator/planner.py).
use mathlib.Core.Bool.{true≢false}
use concierge_agent.Prelude.{
  ℕ, zero, suc, ◌≤◌, ◌<◌, ◌≡◌, refl, sym, ap, ◌∙◌, subst, inl, inr, String, true, some, List, [],
  ◌∷◌, arith, length, contains, select, All, All-IsIn, All-of_IsIn, All-map_of, IsIn, select-IsIn,
  contains-IsIn, map_key-IsIn, Bool-cases, ◌⊎◌, string_eq,
}
use concierge_agent.Orchestrator.Plan.{
  PlanEntry, Registry, entry_ids, Run, is_pending, all_in, is_ready, run_plan, validate_plan,
}
use concierge_agent.Orchestrator.Plan.Known.{HasKnown, validate_plan-known}
use concierge_agent.Orchestrator.Plan.Rounds.{run_plan-ends, count_where-length}

-- The entries stand in an order: each dependency ranks below.
abbrev pub IsOrdered : (String → ℕ) → PlanEntry → Type 0
IsOrdered rank e = All (λ dep. rank dep < rank e.id) e.depends_on

-- Each entry was resolved, or has an output already (of its failure).
abbrev pub IsTaken : Run → PlanEntry → Type 0
IsTaken s e = (contains e.id s.outputs ≡ true) ⊎ (contains e.id s.resolutions ≡ true)

abbrev pub IsDone : Run → PlanEntry → Type 0
IsDone t e = contains e.id t.outputs ≡ true

module _ (t : Run) (rank : String → ℕ) (known : All (HasKnown (entry_ids t.entries)) t.entries)
    (ordered : All (IsOrdered rank) t.entries) (taken : All (IsTaken t) t.entries)
    (idle : select (is_ready t) t.entries ≡ []) where
  -- With the entries below it done, an entry is done: it would be ready.
  IsDone-if : (e : PlanEntry) → IsIn e t.entries → all_in t.outputs e.depends_on ≡ true → IsDone t e
  unfolding is_ready is_pending
  IsDone-if e at below = elim (Bool-cases (contains e.id t.outputs)) [
    | inl done ↦ done
    | inr waits ↦
        let resolved : contains e.id t.resolutions ≡ true =
          elim (All-IsIn (IsTaken t) t.entries e taken at) [
            | inl done ↦ absurd (true≢false (sym done ∙ waits))
            | inr r ↦ r
          ] in
        let ready : is_ready t e ≡ true = rw (waits, resolved, below) refl in
        absurd (subst (IsIn e) idle (select-IsIn (is_ready t) e t.entries at ready))
  ]

  -- Dependencies that rank below are done, if the entries that do are.
  deps_done :
      (n : ℕ) (deps : List String)
      → ((e : PlanEntry) → IsIn e t.entries → rank e.id < n → IsDone t e)
      → All (λ dep. contains dep (entry_ids t.entries) ≡ true) deps
      → All (λ dep. rank dep < n) deps
      → all_in t.outputs deps ≡ true
  deps_done n [] f here below = refl
  deps_done n (dep ∷ rest) f here below =
      let (e, at, same) =
        map_key-IsIn (λ (x : PlanEntry). x.id) dep t.entries
          (contains-IsIn dep (entry_ids t.entries) here.0) in
      let done : contains dep t.outputs ≡ true =
        subst (λ id. contains id t.outputs ≡ true) (sym same)
          (f e at (omega (arith, ap rank same, below.0))) in
      rw done (deps_done n rest f here.1 below.1)

  IsDone-below : (n : ℕ) (e : PlanEntry) → IsIn e t.entries → rank e.id < n → IsDone t e
  IsDone-below zero e at h = absurd (omega (arith, h))
  IsDone-below (suc n) e at h = IsDone-if e at (
      deps_done n e.depends_on (IsDone-below n)
        (All-IsIn (HasKnown (entry_ids t.entries)) t.entries e known at)
        (All-map_of (λ dep. rank dep < rank e.id) (λ dep. rank dep < n) e.depends_on
          (λ dep below. omega (arith, below, h))
          (All-IsIn (IsOrdered rank) t.entries e ordered at)))

-- A plan that passes the validation and whose dependencies stand in an order is run to its end: the
-- rounds are at most one more than the entries, and each entry that was resolved, or whose failure is
-- an output, then has an output, if one entry at least may be sent at once.
pub run_plan-IsDone :
    (reg : Registry) (max_steps : ℕ) (s : Run) (rank : String → ℕ)
    → validate_plan reg max_steps s.entries ≡ []
    → All (IsOrdered rank) s.entries
    → All (IsTaken s) s.entries
    → 1 ≤ s.max_parallel
    → (t : Run) × (run_plan (suc (length s.entries)) s ≡ some t) × All (IsDone t) s.entries
run_plan-IsDone reg max_steps s rank valid ordered taken room =
    let (t, runs, h) =
      run_plan-ends (suc (length s.entries)) s room
        (omega (arith, count_where-length (is_pending s) s.entries)) in
    let same = sym h.entries in
    let known : All (HasKnown (entry_ids t.entries)) t.entries =
      subst (λ es. All (HasKnown (entry_ids es)) es) same
        (validate_plan-known reg max_steps s.entries valid) in
    let still : All (IsTaken t) s.entries =
      All-map_of (IsTaken s) (IsTaken t) s.entries
        (λ e k. elim k [
          | inl done ↦ inl (h.kept e.id done)
          | inr r ↦ inr (ap (contains e.id) h.resolutions ∙ r)
        ])
        taken in
    (
      t,
      runs,
      All-of_IsIn (IsDone t) s.entries (λ e at.
          IsDone-below t rank known (subst (All (IsOrdered rank)) same ordered)
            (subst (All (IsTaken t)) same still) h.idle (suc (rank e.id)) e (subst (IsIn e) same at)
            (omega arith)),
    )
