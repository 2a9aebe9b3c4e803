-- ===== src/Factory/Dag/Verdict.antt =====
-- What the verdict of `validate_workflow` says of a workflow (backend/app/factory/dag.py).
use concierge_agent.Prelude.{
  ◌≡◌, ◌≢◌, ◌↔◌, refl, sym, ap, ◌∙◌, String, List, [], ◌++◌, map, nil_of_append, some, string_eq,
}
use concierge_agent.Factory.Json.{
  Json, null, bool, int, negative, str, arr, obj, Items, nil, cons, Fields, text, get_field,
}
use concierge_agent.Factory.Dag.Errors.{
  DagError, no_nodes, no_edges, Py, ret, ◌>>=◌, >>=-eq-ret, ret-inj,
}
use concierge_agent.Factory.Dag.Nodes.{NodeScan, check_nodes, duplicate_errors}
use concierge_agent.Factory.Dag.Edges.{Edge, EdgeScan, no_edges_seen, check_edges}
use concierge_agent.Factory.Dag.Edges.Scan.{edges_of, check_edges-scan_list, check_edges_reads}
use concierge_agent.Factory.Dag.Distinct.{IsDistinct, duplicate_errors_iff}
use concierge_agent.Factory.Dag.Graph.{IsValidGraph, graph_errors_answer}
use concierge_agent.Factory.Dag.Validate.{
  graph_errors, list_part, validate_fields, validate_workflow,
}

-- What `validate_workflow` asks of a document.
pub record IsAcceptable (show : Json → String) (active : List String) (w : Fields) : Type 0 where
  pub nodes : Items
  pub edges : Items
  pub ids : List String
  pub graph : List Edge
  pub has_nodes : (get_field w "nodes" ≡ arr nodes) × (nodes ≢ nil)
  pub has_edges : (get_field w "edges" ≡ arr edges) × (edges ≢ nil)
  pub good_nodes : check_nodes show active nodes ≡ ret (record { errors = []; ids = ids })
  pub distinct : IsDistinct ids
  pub read : edges_of edges ≡ some graph
  pub valid : IsValidGraph (map text ids) graph

list_part-nil :
    (e : DagError) (v : Json)
    → (list_part e v).errors ≡ []
    → (xs : Items) × (v ≡ arr xs) × (xs ≢ nil) × ((list_part e v).items ≡ xs)
unfolding list_part
list_part-nil e (arr (cons x xs)) h = (cons x xs, refl, λ q. cc, refl)
list_part-nil e (arr nil) h = cc
list_part-nil e null h = cc
list_part-nil e (bool b) h = cc
list_part-nil e (int n) h = cc
list_part-nil e (negative n) h = cc
list_part-nil e (str s) h = cc
list_part-nil e (obj fs) h = cc

list_part_full :
    (e : DagError) (xs : Items)
    → xs ≢ nil
    → list_part e (arr xs) ≡ record { items = xs; errors = [] }
unfolding list_part
list_part_full e nil h = absurd (h refl)
list_part_full e (cons x xs) h = refl

-- The part of the validation that follows the loop over the nodes.
abbrev after_nodes : List DagError → List DagError → NodeScan → Items → Py (List DagError)
after_nodes a b n edges = check_edges (map text n.ids) no_edges_seen edges >>= λ e.
    graph_errors (map text n.ids) e >>= λ more.
    ret (a ++ (b ++ (n.errors ++ (duplicate_errors [] n.ids ++ (e.errors ++ more)))))

record IsSilent (a b : List DagError) (n : NodeScan) (edges : Items) : Type 0 where
  no_a : a ≡ []
  no_b : b ≡ []
  no_errors : n.errors ≡ []
  distinct : IsDistinct n.ids
  graph : List Edge
  read : edges_of edges ≡ some graph
  valid : IsValidGraph (map text n.ids) graph

after_nodes-IsSilent :
    (a b : List DagError) (n : NodeScan) (edges : Items)
    → after_nodes a b n edges ≡ ret []
    → IsSilent a b n edges
after_nodes-IsSilent a b n edges h =
    let known = map text n.ids in
    let (e, scanned, h1) = >>=-eq-ret (check_edges known no_edges_seen edges) _ h in
    let (more, answered, h2) = >>=-eq-ret (graph_errors known e) _ h1 in
    let (pa, r1) = nil_of_append a _ (ret-inj _ _ h2) in
    let (pb, r2) = nil_of_append b _ r1 in
    let (pn, r3) = nil_of_append n.errors _ r2 in
    let (pd, r4) = nil_of_append (duplicate_errors [] n.ids) _ r3 in
    let (pe, pm) = nil_of_append e.errors more r4 in
    let (es, read, same) = check_edges-scan_list known no_edges_seen e edges scanned pe in
    let (errors, says, iff) = graph_errors_answer known es in
    let agree : errors ≡ more =
      ret-inj errors more (sym says ∙ ap (graph_errors known) (sym same) ∙ answered) in
    record {
      no_a = pa;
      no_b = pb;
      no_errors = pn;
      distinct = (duplicate_errors_iff n.ids).0 pd;
      graph = es;
      read = read;
      valid = iff.0 (agree ∙ pm, ap (λ (s : EdgeScan). s.errors) (sym same) ∙ pe);
    }

validate_fields_sound :
    (show : Json → String) (active : List String) (w : Fields)
    → validate_fields show active w ≡ ret []
    → IsAcceptable show active w
unfolding validate_fields
validate_fields_sound show active w h =
    let nodes = list_part no_nodes (get_field w "nodes") in
    let edges = list_part no_edges (get_field w "edges") in
    let (n, scanned, h1) = >>=-eq-ret (check_nodes show active nodes.items) _ h in
    let silent = after_nodes-IsSilent nodes.errors edges.errors n edges.items h1 in
    let (xs, px, nx, ix) = list_part-nil no_nodes (get_field w "nodes") silent.no_a in
    let (ys, py, ny, iy) = list_part-nil no_edges (get_field w "edges") silent.no_b in
    record {
      nodes = xs;
      edges = ys;
      ids = n.ids;
      graph = silent.graph;
      has_nodes = (px, nx);
      has_edges = (py, ny);
      good_nodes =
          ap (check_nodes show active) (sym ix)
          ∙ scanned
          ∙ ap (λ l. ret (record { errors = l; ids = n.ids })) silent.no_errors;
      distinct = silent.distinct;
      read = rw (← iy) silent.read;
      valid = silent.valid;
    }

validate_fields_complete :
    (show : Json → String) (active : List String) (w : Fields)
    → IsAcceptable show active w
    → validate_fields show active w ≡ ret []
unfolding validate_fields
validate_fields_complete show active w h =
    let (errors, says, iff) = graph_errors_answer (map text h.ids) h.graph in
    let (none_after, none_before) = iff.1 h.valid in
    rw (
      h.has_nodes.0,
      h.has_edges.0,
      list_part_full no_nodes h.nodes h.has_nodes.1,
      list_part_full no_edges h.edges h.has_edges.1,
      h.good_nodes,
      check_edges_reads (map text h.ids) no_edges_seen h.edges h.graph h.read,
      says,
      none_before,
      none_after,
      (duplicate_errors_iff h.ids).1 h.distinct,
    )

-- The validator returns no message exactly if the document has a list of nodes and a list of
-- edges, both not empty, the loop over the nodes reports nothing, the node ids are distinct, each
-- edge has two ends, and the graph is valid.
pub validate_workflow_iff :
    (show : Json → String) (active : List String) (w : Fields)
    → (validate_workflow show (obj w) active ≡ ret []) ↔ IsAcceptable show active w
unfolding validate_workflow
validate_workflow_iff show active w =
    (validate_fields_sound show active w, validate_fields_complete show active w)
