-- ===== src/Factory/Dag/Edges/Scan.antt =====
-- The loop over the edges against the list of edges that it reads (backend/app/factory/dag.py).
use mathlib.Core.List.{cons≢nil}
use concierge_agent.Prelude.{
  ◌≡◌, inl, inr, refl, sym, ap, ◌∙◌, ◌&&◌, Option, none, some, List, [], ◌∷◌, ◌++◌, some-inj,
  nil_of_append, Bool-cases, if◌then◌else◌, nat_eq,
}
use concierge_agent.Factory.Json.{Json, obj, Items, nil, cons, Key, key_eq, has_field}
use concierge_agent.Factory.Dag.Errors.{edge_needs_ends, Py, ret, type_error, out_of_rounds, ◌>>=◌}
use concierge_agent.Factory.Dag.Edges.{
  Edge, EdgeScan, record_edge, read_edge, check_edge, check_edges,
}

-- The edge that a value of the document stands for, if it has both ends.
abbrev pub read_value : Json → Option (Py Edge)
read_value (obj e) = if has_field e "from" && has_field e "to" then some (read_edge e) else none
read_value _ = none

abbrev join : Option (Py Edge) → Option (List Edge) → Option (List Edge)
join (some (ret e)) (some l) = some (e ∷ l)
join _ _ = none

-- The edges of a document all of whose edges have two ends.
unfoldable pub edges_of : Items → Option (List Edge)
edges_of nil = some []
edges_of (cons v rest) = join (read_value v) (edges_of rest)

-- The loop, on edges.
unfoldable pub scan_list : List Key → EdgeScan → List Edge → EdgeScan
scan_list known s [] = s
scan_list known s (e ∷ rest) = scan_list known (record_edge known s e) rest

-- The body of the loop, on what was read.
abbrev step : List Key → EdgeScan → Option (Py Edge) → Py EdgeScan
step known s none = ret (record s { errors = s.errors ++ edge_needs_ends ∷ [] })
step known s (some r) = r >>= λ e. ret (record_edge known s e)

module _ (known : List Key) where
  check_edge-eq-step :
      (s : EdgeScan) (v : Json) → check_edge known s v ≡ step known s (read_value v)
  unfolding check_edge
  check_edge-eq-step s (obj e) = elim (Bool-cases (has_field e "from" && has_field e "to")) [
    | inl both ↦ rw (both, check_edge)
    | inr open_end ↦ rw (open_end, check_edge)
  ]
  check_edge-eq-step s _ = refl

  ret-inj : (s t : EdgeScan) → ◌≡◌ {A = Py EdgeScan} (ret s) (ret t) → s ≡ t
  ret-inj s t h = cc

  -- Errors are only added.
  errors-step :
      (s s' : EdgeScan) (r : Option (Py Edge))
      → step known s r ≡ ret s'
      → s'.errors ≡ []
      → s.errors ≡ []
  unfolding record_edge
  errors-step s s' none h e =
      (nil_of_append s.errors _ (ap (λ (t : EdgeScan). t.errors) (ret-inj _ s' h) ∙ e)).0
  errors-step s s' (some (ret edge)) h e =
      (nil_of_append s.errors _ (ap (λ (t : EdgeScan). t.errors) (ret-inj _ s' h) ∙ e)).0
  errors-step s s' (some type_error) h e = cc
  errors-step s s' (some out_of_rounds) h e = cc

  -- The first step of the loop, and the rest of it.
  check_edges-cons :
      (s s' : EdgeScan) (v : Json) (rest : Items)
      → check_edges known s (cons v rest) ≡ ret s'
      → (step known s (read_value v) >>= λ t. check_edges known t rest) ≡ ret s'
  unfolding check_edges
  check_edges-cons s s' v rest h = rw (← check_edge-eq-step s v) h

  errors_cons :
      (s s' : EdgeScan) (r : Option (Py Edge)) (rest : Items)
      → (step known s r >>= λ t. check_edges known t rest) ≡ ret s'
      → ((t : EdgeScan) → check_edges known t rest ≡ ret s' → t.errors ≡ [])
      → s.errors ≡ []
  errors_cons s s' none rest h ih = errors-step s _ none refl (ih _ h)
  errors_cons s s' (some (ret edge)) rest h ih = errors-step s _ (some (ret edge)) refl (ih _ h)
  errors_cons s s' (some type_error) rest h ih = cc
  errors_cons s s' (some out_of_rounds) rest h ih = cc

  errors-check_edges :
      (s s' : EdgeScan) (items : Items)
      → check_edges known s items ≡ ret s'
      → s'.errors ≡ []
      → s.errors ≡ []
  unfolding check_edges
  errors-check_edges s s' nil h e = ap (λ (t : EdgeScan). t.errors) (ret-inj s s' h) ∙ e
  errors-check_edges s s' (cons v rest) h e =
      errors_cons s s' (read_value v) rest (check_edges-cons s s' v rest h)
        (λ t p. errors-check_edges t s' rest p e)

  edges_cons :
      (s s' : EdgeScan) (r : Option (Py Edge)) (rest : Items)
      → (step known s r >>= λ t. check_edges known t rest) ≡ ret s'
      → s'.errors ≡ []
      → ((t : EdgeScan)
          → check_edges known t rest ≡ ret s'
          → (es : List Edge) × (edges_of rest ≡ some es) × (s' ≡ scan_list known t es))
      → (es : List Edge) × (join r (edges_of rest) ≡ some es) × (s' ≡ scan_list known s es)
  unfolding scan_list
  edges_cons s s' none rest h e ih =
      let t = record s { errors = s.errors ++ edge_needs_ends ∷ [] } in
      absurd (cons≢nil (nil_of_append s.errors _ (errors-check_edges t s' rest h e)).1)
  edges_cons s s' (some (ret edge)) rest h e ih =
      let (es, p, q) = ih (record_edge known s edge) h in (edge ∷ es, rw p, q)
  edges_cons s s' (some type_error) rest h e ih = cc
  edges_cons s s' (some out_of_rounds) rest h e ih = cc

  -- Where the loop leaves no error, all edges were read, and it went over them.
  pub check_edges-scan_list :
      (s s' : EdgeScan) (items : Items)
      → check_edges known s items ≡ ret s'
      → s'.errors ≡ []
      → (es : List Edge) × (edges_of items ≡ some es) × (s' ≡ scan_list known s es)
  unfolding check_edges scan_list edges_of
  check_edges-scan_list s s' nil h e = ([], refl, sym (ret-inj s s' h))
  check_edges-scan_list s s' (cons v rest) h e =
      edges_cons s s' (read_value v) rest (check_edges-cons s s' v rest h) e
        (λ t p. check_edges-scan_list t s' rest p e)

  -- The converse: where all edges can be read, the loop is over them.
  scan_cons :
      (s : EdgeScan) (r : Option (Py Edge)) (l : Option (List Edge)) (rest : Items) (es : List Edge)
      → join r l ≡ some es
      → ((t : EdgeScan) (es' : List Edge)
          → l ≡ some es'
          → check_edges known t rest ≡ ret (scan_list known t es'))
      → (step known s r >>= λ t. check_edges known t rest) ≡ ret (scan_list known s es)
  unfolding scan_list
  scan_cons s (some (ret e)) (some l) rest es h ih =
      rw (← some-inj (e ∷ l) es h) (ih (record_edge known s e) l refl)
  scan_cons s none l rest es h ih = cc
  scan_cons s (some (ret e)) none rest es h ih = cc
  scan_cons s (some type_error) l rest es h ih = cc
  scan_cons s (some out_of_rounds) l rest es h ih = cc

  pub check_edges_reads :
      (s : EdgeScan) (items : Items) (es : List Edge)
      → edges_of items ≡ some es
      → check_edges known s items ≡ ret (scan_list known s es)
  unfolding check_edges scan_list edges_of
  check_edges_reads s nil es h = rw (← some-inj [] es h)
  check_edges_reads s (cons v rest) es h = rw (check_edge-eq-step s v) (
      scan_cons s (read_value v) (edges_of rest) rest es h
        (λ t es' p. check_edges_reads t rest es' p))
