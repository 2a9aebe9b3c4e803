-- ===== src/Orchestrator/Plan/Graph.antt =====
-- The run of the graph under LangGraph's recursion limit (_run_graph of
-- backend/app/orchestrator/runner.py, build_orchestrator_graph of
-- backend/app/orchestrator/graph_mode.py). How many supersteps LangGraph grants under a limit is a
-- parameter.
use concierge_agent.Prelude.{ℕ, zero, suc, ◌-◌, none, some}
use concierge_agent.Orchestrator.Plan.{Run, dispatch_ready, dispatched}

-- config["recursion_limit"]
abbrev pub recursion_limit : ℕ
recursion_limit = 100

-- How the graph ends: with the state that "aggregate" reads, or with the RunFailed that stands for
-- GraphRecursionError.
pub data GraphEnd : Type 0 where
  ended : Run → GraphEnd
  step_budget_exceeded : GraphEnd

-- From "coordinate" on, with so many supersteps left. It takes one, and what follows it another:
-- "aggregate", or the batch of "dispatch", which leads back to "coordinate".
unfoldable pub run_from : ℕ → Run → GraphEnd
unfolding dispatch_ready
run_from zero s = step_budget_exceeded
run_from (suc zero) s = step_budget_exceeded
run_from (suc (suc n)) s = elim (dispatch_ready s) [
  | none ↦ ended s
  | some batch ↦ run_from n (dispatched s batch)
]

-- From the state that "plan" and "resolve" left, which took a superstep each.
unfoldable pub run_graph : (ℕ → ℕ) → Run → GraphEnd
unfolding run_from
run_graph granted s = run_from (granted recursion_limit - 2) s
