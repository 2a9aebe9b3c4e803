-- ===== src/Orchestrator/Plan/Tests.antt =====
-- Two plans (backend/app/orchestrator/planner.py, backend/app/orchestrator/graph_mode.py).
use concierge_agent.Prelude.{
  ◌≤◌, ◌+◌, ◌*◌, ℕ, ◌≡◌, refl, inr, String, true, false, none, some, List, [], ◌∷◌, All, arith,
  length, ◌==◌, string_eq, nat_eq, if◌then◌else◌,
}
use concierge_agent.Orchestrator.Plan.{
  direct_tool, PlanEntry, Registry, Run, dispatch_ready, check_capability, validate_plan,
}
use concierge_agent.Orchestrator.Plan.Planner.{
  Model, prose, parsed, IsJudged, run_planner, run_planner-IsJudged,
}
use concierge_agent.Orchestrator.Plan.Complete.{IsDone}
use concierge_agent.Orchestrator.Plan.Graph.{ended, step_budget_exceeded, run_from, run_graph}
use concierge_agent.Orchestrator.Plan.Budget.{run_graph-IsDone, run_graph_bounded}

-- One tool, under every name.
abbrev tools : Registry
tools = record {
  uuid = λ text. some 1;
  rows = λ kind.
      (record { id = 1; is_deleted = false; status = "active"; direct_exposure = true }) ∷ [];
}

abbrev entry : String → List String → PlanEntry
entry id deps = record {
  id = id;
  capability = record { kind = direct_tool; id = some "1"; skill_ids = none };
  depends_on = deps;
}

abbrev resolved : List PlanEntry → Run
resolved entries = record {
  entries = entries;
  outputs = [];
  resolutions = "s1" ∷ "s2" ∷ [];
  max_parallel = 4;
}

abbrev chain : List PlanEntry
chain = entry "s1" [] ∷ entry "s2" ("s1" ∷ []) ∷ []

chain_is_valid : validate_plan tools 6 chain ≡ []
unfolding validate_plan check_capability
chain_is_valid = refl

abbrev place : String → ℕ
place id = if id == "s2" then 1 else 0

run_graph-IsDone_example :
    (t : Run) × (run_graph (λ limit. limit) (resolved chain) ≡ ended t) × All (IsDone t) chain
run_graph-IsDone_example =
    run_graph-IsDone (λ limit. limit) tools 6 (resolved chain) place (λ limit. omega arith)
      chain_is_valid (tt, ((omega arith, tt), tt)) (inr refl, (inr refl, tt)) (omega arith)
      (omega arith)

-- The chain takes six supersteps from "coordinate" on: with five it fails.
chain_exceeds : run_from 5 (resolved chain) ≡ step_budget_exceeded
unfolding run_from dispatch_ready
chain_exceeds = refl

abbrev finished : Run
finished = record (resolved chain) { outputs = "s2" ∷ "s1" ∷ [] }

chain_finishes : run_graph (λ limit. limit) (resolved chain) ≡ ended finished
unfolding run_graph run_from dispatch_ready
chain_finishes = refl

run_graph_bounded_example : length finished.outputs ≤ 0 + 48 * 4
run_graph_bounded_example =
    run_graph_bounded (λ limit. limit) (resolved chain) finished (λ limit. omega arith)
      chain_finishes

-- Two entries that wait for each other pass the validation, and are never sent.
abbrev ring : List PlanEntry
ring = entry "s1" ("s2" ∷ []) ∷ entry "s2" ("s1" ∷ []) ∷ []

ring_is_valid : validate_plan tools 6 ring ≡ []
unfolding validate_plan check_capability
ring_is_valid = refl

ring_is_dropped : dispatch_ready (resolved ring) ≡ none
unfolding dispatch_ready
ring_is_dropped = refl

-- A model that answers in prose, and then with the chain.
abbrev model : Model
model n errors =
    if n == 1
    then prose "no tool call"
    else parsed (record { entries = chain; direct_answer = none; no_confident_match = false })

run_planner-IsJudged_example : IsJudged tools 6 (run_planner tools 6 model)
run_planner-IsJudged_example = run_planner-IsJudged tools 6 model
