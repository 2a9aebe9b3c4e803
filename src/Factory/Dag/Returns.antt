-- ===== src/Factory/Dag/Returns.antt =====
-- The ways in which `validate_workflow` ends (backend/app/factory/dag.py).
use concierge_agent.Prelude.{◌≢◌, String, ◌&&◌, List, [], ◌∷◌, ◌++◌, inl, inr, arith}
use concierge_agent.Factory.Json.{Json, obj, Items, nil, cons, Fields, Key, has_field}
use concierge_agent.Factory.Dag.Errors.{
  ret, out_of_rounds, edge_needs_ends, Ends, if-Ends, ret-Ends, >>=-Ends, ends_rules, ◌>>=◌,
}
use concierge_agent.Factory.Dag.Cycle.Decides.{contains_cycle_decides}
use concierge_agent.Factory.Dag.Reach.Decides.{reachable_from_start_decides}
use concierge_agent.Factory.Dag.Cycle.{Adjacency}
use concierge_agent.Factory.Dag.Nodes.Ends.{check_nodes-Ends}
use concierge_agent.Factory.Dag.Edges.{
  EdgeScan, record_edge, hash, read_edge, check_edge, check_edges,
}
use concierge_agent.Factory.Dag.Validate.{
  cycle_errors, path_errors, graph_errors, validate_fields, validate_workflow,
}

hash-Ends : (v : Json) → Ends (hash v)
unfolding hash
hash-Ends v = record { apply = λ h. ground arith }

read_edge-Ends : (e : Fields) → Ends (read_edge e)
unfolding read_edge
read_edge-Ends e = search (ends_rules, hash-Ends)

check_edge-Ends : (known : List Key) (s : EdgeScan) (v : Json) → Ends (check_edge known s v)
unfolding check_edge
check_edge-Ends known s (obj e) =
    if-Ends (has_field e "from" && has_field e "to")
      (read_edge e >>= λ edge. ret (record_edge known s edge))
      (ret (record s { errors = s.errors ++ edge_needs_ends ∷ [] }))
      (>>=-Ends (read_edge e) (λ edge. ret (record_edge known s edge)) (read_edge-Ends e)
        (λ edge. ret-Ends _))
      (ret-Ends _)
check_edge-Ends known s _ = ret-Ends _

check_edges-Ends : (known : List Key) (s : EdgeScan) (xs : Items) → Ends (check_edges known s xs)
unfolding check_edges
check_edges-Ends known s nil = ret-Ends s
check_edges-Ends known s (cons v rest) =
    >>=-Ends (check_edge known s v) (λ s'. check_edges known s' rest) (check_edge-Ends known s v)
      (λ s'. check_edges-Ends known s' rest)

cycle_errors-Ends : (a : Adjacency) (known : List Key) → Ends (cycle_errors a known)
unfolding cycle_errors
cycle_errors-Ends a known = elim (contains_cycle_decides a known) [
  | inl (w, found) ↦ record { apply = rw (found, cycle_errors) (λ h. cc) }
  | inr (free, clear) ↦ record { apply = rw (clear, cycle_errors) (λ h. cc) }
]

path_errors-Ends : (a : Adjacency) → Ends (path_errors a)
unfolding path_errors
path_errors-Ends a =
    let (reachable, found, says) = reachable_from_start_decides a in
    record { apply = rw (found, path_errors) (λ h. cc) }

graph_errors-Ends : (known : List Key) (s : EdgeScan) → Ends (graph_errors known s)
unfolding graph_errors
graph_errors-Ends known s = search (ends_rules, cycle_errors-Ends, path_errors-Ends)

validate_fields-Ends :
    (show : Json → String) (active : List String) (w : Fields)
    → Ends (validate_fields show active w)
unfolding validate_fields
validate_fields-Ends show active w =
    search (ends_rules, check_nodes-Ends, check_edges-Ends, graph_errors-Ends)

-- On every document neither bounded search is cut short.
pub validate_workflow_ends :
    (show : Json → String) (w : Json) (active : List String)
    → validate_workflow show w active ≢ out_of_rounds
unfolding validate_workflow
validate_workflow_ends show (obj w) active e = (validate_fields-Ends show active w).apply e
validate_workflow_ends show _ active e = cc
