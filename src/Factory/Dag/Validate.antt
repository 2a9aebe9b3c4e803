-- ===== src/Factory/Dag/Validate.antt =====
-- `validate_workflow` (backend/app/factory/dag.py).
use concierge_agent.Prelude.{String, not, none, some, List, [], ◌∷◌, ◌++◌, map, string_eq, contains}
use concierge_agent.Factory.Json.{
  Json, arr, obj, Items, nil, cons, Fields, Key, text, key_beq, key_eq, get_field,
}
use concierge_agent.Factory.Dag.Errors.{
  DagError, not_an_object, no_nodes, no_edges, has_a_cycle, no_path, when, Py, ret, out_of_rounds,
  ◌>>=◌,
}
use concierge_agent.Factory.Dag.Nodes.{check_nodes, duplicate_errors}
use concierge_agent.Factory.Dag.Edges.{
  EdgeScan, no_edges_seen, check_edges, start_errors, count_errors,
}
use concierge_agent.Factory.Dag.Cycle.{Adjacency, contains_cycle, end_key}
use concierge_agent.Factory.Dag.Reach.{reachable_from_start}

-- A list that is not empty, or the message.
pub record Part : Type 0 where
  pub items : Items
  pub errors : List DagError

unfoldable pub list_part : DagError → Json → Part
list_part missing (arr (cons x xs)) = record { items = cons x xs; errors = [] }
list_part missing _ = record { items = nil; errors = missing ∷ [] }

unfoldable pub cycle_errors : Adjacency → List Key → Py (List DagError)
unfolding when contains_cycle
cycle_errors adjacency known = elim (contains_cycle adjacency known) [
  | none ↦ out_of_rounds
  | some found ↦ ret (when found has_a_cycle)
]

unfoldable pub path_errors : Adjacency → Py (List DagError)
unfolding when reachable_from_start key_beq
path_errors adjacency = elim (reachable_from_start adjacency) [
  | none ↦ out_of_rounds
  | some reachable ↦ ret (when (not (contains end_key reachable)) no_path)
]

-- What follows the loop over the edges.
unfoldable pub graph_errors : List Key → EdgeScan → Py (List DagError)
unfolding cycle_errors path_errors start_errors count_errors
graph_errors known s = do
  cycles ← cycle_errors s.adjacency known
  paths ← path_errors s.adjacency
  ret (start_errors s.start_edges ++ (count_errors s.error_counts ++ (cycles ++ paths)))

-- `show v` is Python's str(v) of a value that is no text.
module _ (show : Json → String) where
  unfoldable pub validate_fields : List String → Fields → Py (List DagError)
  unfolding get_field list_part check_nodes duplicate_errors check_edges graph_errors
  validate_fields active w = do
    let nodes = list_part no_nodes (get_field w "nodes")
    let edges = list_part no_edges (get_field w "edges")
    n ← check_nodes show active nodes.items
    let known = map text n.ids
    e ← check_edges known no_edges_seen edges.items
    more ← graph_errors known e
    ret (
        nodes.errors
        ++ (edges.errors ++ (n.errors ++ (duplicate_errors [] n.ids ++ (e.errors ++ more)))))

  unfoldable pub validate_workflow : Json → List String → Py (List DagError)
  unfolding validate_fields
  validate_workflow (obj w) active = validate_fields active w
  validate_workflow _ active = ret (not_an_object ∷ [])
