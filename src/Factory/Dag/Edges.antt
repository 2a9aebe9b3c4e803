-- ===== src/Factory/Dag/Edges.antt =====
-- The loop over the edges of `validate_workflow`, and the tests of what it counted
-- (backend/app/factory/dag.py).
pub mod Scan
pub mod Counted
pub mod Tally
use concierge_agent.Prelude.{
  ℕ, zero, suc, ◌+◌, String, Bool, true, false, not, ◌&&◌, ◌||◌, Option, none, some, List, [], ◌∷◌,
  ◌++◌, ltb, if◌then◌else◌, ◌==◌, nat_eq, contains,
}
use concierge_agent.Factory.Json.{
  Json, obj, Items, nil, cons, Fields, str, Key, text, key_of, key_beq, key_eq, get_field,
  has_field,
}
use concierge_agent.Factory.Dag.Errors.{
  DagError, edge_needs_ends, bad_outcome, unknown_node, leaves_end, enters_start, start_edge_count,
  error_edges, when, Py, ret, type_error, ◌>>=◌,
}
use concierge_agent.Factory.Dag.Cycle.{Adjacency, successors, start_key, end_key}

pub record Edge : Type 0 where
  pub source : Key
  pub target : Key
  pub outcome : Key

abbrev pub Counts : Type 0
Counts = List (Key × ℕ)

-- counts[k], 0 by default
unfoldable pub count_of : Counts → Key → ℕ
count_of [] k = 0
count_of ((j, n) ∷ rest) k = if j == k then n else count_of rest k

-- counts[k] += 1
unfoldable pub bump : Counts → Key → Counts
bump [] k = (k, 1) ∷ []
bump ((j, n) ∷ rest) k = if j == k then (j, suc n) ∷ rest else (j, n) ∷ bump rest k

pub record EdgeScan : Type 0 where
  pub errors : List DagError
  pub start_edges : ℕ
  pub error_counts : Counts
  pub adjacency : Adjacency

abbrev pub no_edges_seen : EdgeScan
no_edges_seen = record { errors = []; start_edges = 0; error_counts = []; adjacency = [] }

abbrev pub is_end : Key → Bool
is_end k = k == start_key || k == end_key

-- The messages that one edge adds.
unfoldable pub edge_errors : List Key → Edge → List DagError
unfolding when key_beq
edge_errors known e =
    when (not (contains e.outcome (text "success" ∷ text "error" ∷ [])))
      (bad_outcome e.source e.target)
    ++ (when (not (e.source == start_key) && not (contains e.source known)) (unknown_node e.source)
        ++ (when (not (e.target == end_key) && not (contains e.target known))
              (unknown_node e.target)
            ++ (when (e.source == end_key) leaves_end
                ++ when (e.target == start_key) enters_start)))

-- adjacency[src].add(dst)
unfoldable pub add_edge : Adjacency → Key → Key → Adjacency
unfolding successors key_beq
add_edge adjacency src dst =
    if contains dst (successors adjacency src) then adjacency else (src, dst) ∷ adjacency

-- The body of the loop, for an edge whose values are hashable.
unfoldable pub record_edge : List Key → EdgeScan → Edge → EdgeScan
unfolding edge_errors add_edge bump
record_edge known s e = record {
  errors = s.errors ++ edge_errors known e;
  start_edges = if e.source == start_key then suc s.start_edges else s.start_edges;
  error_counts =
      if e.outcome == text "error" && not (is_end e.source)
      then bump s.error_counts e.source
      else s.error_counts;
  adjacency = add_edge s.adjacency e.source e.target;
}

-- e.get("on", "success")
pub outcome_of : Fields → Json
outcome_of e = if has_field e "on" then get_field e "on" else str "success"

unfoldable pub hash : Json → Py Key
hash v = elim (key_of v) [ none ↦ type_error | some k ↦ ret k ]

-- The hashes that an edge takes, in the order of the code.
unfoldable pub read_edge : Fields → Py Edge
unfolding hash outcome_of key_of
read_edge e = do
  outcome ← hash (outcome_of e)
  source ← hash (get_field e "from")
  target ← hash (get_field e "to")
  ret (record { source = source; target = target; outcome = outcome })

unfoldable pub check_edge : List Key → EdgeScan → Json → Py EdgeScan
unfolding read_edge record_edge
check_edge known s (obj e) =
    if has_field e "from" && has_field e "to"
    then read_edge e >>= (λ edge. ret (record_edge known s edge))
    else ret (record s { errors = s.errors ++ edge_needs_ends ∷ [] })
check_edge known s _ = ret (record s { errors = s.errors ++ edge_needs_ends ∷ [] })

unfoldable pub check_edges : List Key → EdgeScan → Items → Py EdgeScan
unfolding check_edge get_field has_field key_of
check_edges known s nil = ret s
check_edges known s (cons e rest) = check_edge known s e >>= (λ s'. check_edges known s' rest)

unfoldable pub start_errors : ℕ → List DagError
unfolding when
start_errors n = when (not (n == 1)) (start_edge_count n)

-- The loop over `error_edge_count`.
unfoldable pub count_errors : Counts → List DagError
unfolding when
count_errors [] = []
count_errors ((k, n) ∷ rest) = when (ltb 1 n) (error_edges k n) ++ count_errors rest
