-- ===== src/Factory/Dag/Graph.antt =====
-- What the verdict of `validate_workflow` says of the graph of a workflow
-- (backend/app/factory/dag.py).
use concierge_agent.Prelude.{
  ◌≤◌, ◌≡◌, ◌≢◌, ◌↔◌, inl, inr, refl, ap, Bool, true, false, not, List, [], ◌++◌, arith,
  nil_of_append, IsIn, All, count_where, contains, contains-IsIn, IsIn-contains, ◌==◌, ==_eq,
  nat_eq, string_eq,
}
use concierge_agent.Factory.Json.{Key, key_eq}
use concierge_agent.Factory.Dag.Errors.{
  DagError, has_a_cycle, no_path, start_edge_count, ret, when, when-nil, when-false,
}
use concierge_agent.Factory.Dag.Cycle.{Adjacency, successors, start_key, end_key}
use concierge_agent.Factory.Dag.Cycle.Walks.{IsLink, Walk, one, more, is_skipped_iff}
use concierge_agent.Factory.Dag.Cycle.Decides.{contains_cycle_decides}
use concierge_agent.Factory.Dag.Reach.Decides.{Route, edge, further, reachable_from_start_decides}
use concierge_agent.Factory.Dag.Edges.{Edge, no_edges_seen, count_of, start_errors, count_errors}
use concierge_agent.Factory.Dag.Edges.Scan.{scan_list}
use concierge_agent.Factory.Dag.Edges.Counted.{
  of_not, IsGoodEdge, is_error_edge, HasEdge, errors-scan_list, scan_list-errors,
  start_edges-scan_list, error_counts-scan_list, adjacency-scan_list,
}
use concierge_agent.Factory.Dag.Edges.Tally.{
  scan_list-IsTidy, count_errors-le_one, le_one-count_errors,
}
use concierge_agent.Factory.Dag.Validate.{cycle_errors, path_errors, graph_errors}

-- A path of one edge or more, through nodes only.
pub data NodePath (nodes : List Key) (es : List Edge) : Key → Key → Type 0 where
  hop :
      {n m : Key}
      → HasEdge es n m
      → IsIn m nodes
      → m ≢ start_key
      → m ≢ end_key
      → NodePath nodes es n m
  hops :
      {n m : Key} (k : Key)
      → HasEdge es n k
      → IsIn k nodes
      → k ≢ start_key
      → k ≢ end_key
      → NodePath nodes es k m
      → NodePath nodes es n m

-- A path of one edge or more from `n`, through anything.
pub data EdgePath (es : List Edge) (n : Key) : Key → Type 0 where
  first : {m : Key} → HasEdge es n m → EdgePath es n m
  then_edge : {k m : Key} → EdgePath es n k → HasEdge es k m → EdgePath es n m

-- What a workflow's graph has to be.
pub record IsValidGraph (nodes : List Key) (es : List Edge) : Type 0 where
  pub good : All (IsGoodEdge nodes) es
  pub one_start : count_where (λ (e : Edge). e.source == start_key) es ≡ 1
  pub one_error : (k : Key) → count_where (is_error_edge k) es ≤ 1
  pub acyclic : (k : Key) → ¬ (NodePath nodes es k k)
  pub connected : EdgePath es start_key end_key

-- The adjacency that the loop over the edges leaves.
abbrev adjacency_of : List Key → List Edge → Adjacency
adjacency_of nodes es = (scan_list nodes no_edges_seen es).adjacency

successors-HasEdge :
    (nodes : List Key) (es : List Edge) (n m : Key)
    → IsIn m (successors (adjacency_of nodes es) n) ↔ HasEdge es n m
unfolding successors
successors-HasEdge nodes es n m = (
  λ h. elim ((adjacency-scan_list nodes no_edges_seen es n m).0 h) [
    | inl old ↦ absurd old
    | inr new ↦ new
  ],
  λ h. (adjacency-scan_list nodes no_edges_seen es n m).1 (inr h),
)

module _ (nodes : List Key) (es : List Edge) where
  IsLink-of_edge :
      (n m : Key)
      → HasEdge es n m
      → IsIn m nodes
      → m ≢ start_key
      → m ≢ end_key
      → IsLink (adjacency_of nodes es) nodes n m
  IsLink-of_edge n m e at p q = record {
    edge = (successors-HasEdge nodes es n m).1 e;
    real = (is_skipped_iff nodes m).1 (at, p, q);
  }

  walk_of_path : (n m : Key) → NodePath nodes es n m → Walk (adjacency_of nodes es) nodes n m
  walk_of_path n m (hop e at p q) = one (IsLink-of_edge n m e at p q)
  walk_of_path n m (hops k e at p q rest) =
      more k (IsLink-of_edge n k e at p q) (walk_of_path k m rest)

  path_of_walk : (n m : Key) → Walk (adjacency_of nodes es) nodes n m → NodePath nodes es n m
  path_of_walk n m (one l) =
      let (at, p, q) = (is_skipped_iff nodes m).0 l.real in
      hop ((successors-HasEdge nodes es n m).0 l.edge) at p q
  path_of_walk n m (more k l w) =
      let (at, p, q) = (is_skipped_iff nodes k).0 l.real in
      hops k ((successors-HasEdge nodes es n k).0 l.edge) at p q (path_of_walk k m w)

  path_of_route : (n m : Key) → Route (adjacency_of nodes es) n m → EdgePath es n m
  path_of_route n m (edge at) = first ((successors-HasEdge nodes es n m).0 at)
  path_of_route n m (further {k} r at) =
      then_edge (path_of_route n k r) ((successors-HasEdge nodes es k m).0 at)

  route_of_path : (n m : Key) → EdgePath es n m → Route (adjacency_of nodes es) n m
  route_of_path n m (first e) = edge ((successors-HasEdge nodes es n m).1 e)
  route_of_path n m (then_edge {k} p e) =
      further (route_of_path n k p) ((successors-HasEdge nodes es k m).1 e)

  -- The cycle test answers, and is silent exactly on an acyclic graph.
  cycle_errors_answer :
      (errors : List DagError) × (cycle_errors (adjacency_of nodes es) nodes ≡ ret errors)
      × ((errors ≡ []) ↔ ((k : Key) → ¬ (NodePath nodes es k k)))
  unfolding cycle_errors
  cycle_errors_answer = elim (contains_cycle_decides (adjacency_of nodes es) nodes) [
    | inl ((k, w), found) ↦ (
      when true has_a_cycle,
      rw (found, cycle_errors),
      (λ h. cc (when-nil true has_a_cycle h), λ free. absurd (free k (path_of_walk k k w))),
    )
    | inr (none_there, clear) ↦ (
      when false has_a_cycle,
      rw (clear, cycle_errors),
      (λ _ k p. none_there k (walk_of_path k k p), λ _. when-false false has_a_cycle refl),
    )
  ]

  path_errors_answer :
      (errors : List DagError) × (path_errors (adjacency_of nodes es) ≡ ret errors)
      × ((errors ≡ []) ↔ EdgePath es start_key end_key)
  unfolding path_errors
  path_errors_answer =
      let (reachable, found, says) = reachable_from_start_decides (adjacency_of nodes es) in
      let missing : Bool = not (contains end_key reachable) in
      (
        when missing no_path,
        rw (found, path_errors),
        (
          λ h. path_of_route start_key end_key (
              (says end_key).0
                (contains-IsIn end_key reachable (of_not _ (when-nil missing no_path h)))),
          λ p. when-false missing no_path (
              ap not (
                IsIn-contains end_key reachable
                  ((says end_key).1 (route_of_path start_key end_key p)))),
        ),
      )

  start_errors_iff :
      (start_errors (scan_list nodes no_edges_seen es).start_edges ≡ [])
      ↔ (count_where (λ (e : Edge). e.source == start_key) es ≡ 1)
  unfolding start_errors
  start_errors_iff =
      let counted = start_edges-scan_list nodes no_edges_seen es in
      let n = (scan_list nodes no_edges_seen es).start_edges in
      (
        λ h. omega (arith, counted, ==_eq n 1 (of_not _ (when-nil _ _ h))),
        λ one_edge.
            when-false (not (n == 1)) (start_edge_count n)
              (ap not ((nat_eq.decides n 1).1 (omega (arith, counted)))),
      )

  count_errors_iff :
      (count_errors (scan_list nodes no_edges_seen es).error_counts ≡ [])
      ↔ ((k : Key) → count_where (is_error_edge k) es ≤ 1)
  unfolding count_of
  count_errors_iff =
      let counts = (scan_list nodes no_edges_seen es).error_counts in
      let counted = error_counts-scan_list nodes no_edges_seen es in
      (
        λ h k. omega (arith, counted k, count_errors-le_one counts k h),
        λ few.
            le_one-count_errors counts (scan_list-IsTidy nodes no_edges_seen es tt)
              (λ k. omega (arith, counted k, few k)),
      )

  -- The tests after the loop answer. With the loop's own errors they are silent exactly on a
  -- valid graph.
  pub graph_errors_answer :
      (errors : List DagError) × (graph_errors nodes (scan_list nodes no_edges_seen es)
        ≡ ret errors)
      × (((errors ≡ []) × ((scan_list nodes no_edges_seen es).errors ≡ [])) ↔ IsValidGraph nodes es)
  unfolding graph_errors
  graph_errors_answer =
      let (cycles, c, c_iff) = cycle_errors_answer in
      let (paths, p, p_iff) = path_errors_answer in
      let s = scan_list nodes no_edges_seen es in
      (
        start_errors s.start_edges ++ (count_errors s.error_counts ++ (cycles ++ paths)),
        rw (c, p),
        (
          λ h.
              let (a, h1) = nil_of_append (start_errors s.start_edges) _ h.0 in
              let (b, h2) = nil_of_append (count_errors s.error_counts) (cycles ++ paths) h1 in
              let (c0, p0) = nil_of_append cycles paths h2 in
              record {
                good = (errors-scan_list nodes no_edges_seen es h.1).1;
                one_start = start_errors_iff.0 a;
                one_error = count_errors_iff.0 b;
                acyclic = c_iff.0 c0;
                connected = p_iff.0 p0;
              },
          λ v. (
            rw (
              start_errors_iff.1 v.one_start,
              count_errors_iff.1 v.one_error,
              c_iff.1 v.acyclic,
              p_iff.1 v.connected,
            ),
            scan_list-errors nodes no_edges_seen es refl v.good,
          ),
        ),
      )
