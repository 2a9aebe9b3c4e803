-- ===== src/Factory/Dag/Edges/Counted.antt =====
-- What the loop over the edges has counted and collected at its end (backend/app/factory/dag.py).
use concierge_agent.Prelude.{
  suc, ◌+◌, ◌≡◌, ◌≢◌, ◌⊎◌, ◌↔◌, inl, inr, refl, subst, Bool, true, false, not, ◌&&◌, List, [], ◌∷◌,
  arith, nil_of_append, IsIn, All, Bool-cases, count_where, contains, contains-IsIn, IsIn-contains,
  if◌then◌else◌, ◌==◌, ==_eq, ==_ne, ==_ne_iff, nat_eq,
}
use concierge_agent.Factory.Json.{Key, text, key_eq}
use concierge_agent.Factory.Dag.Errors.{when-nil, when-append-nil}
use concierge_agent.Factory.Dag.Cycle.{Adjacency, successors, start_key, end_key}
use concierge_agent.Factory.Dag.Edges.{
  Edge, EdgeScan, Counts, count_of, bump, edge_errors, add_edge, record_edge, is_end,
}
use concierge_agent.Factory.Dag.Edges.Scan.{scan_list}

pub of_not : (b : Bool) → not b ≡ false → b ≡ true
of_not b h = ground arith

-- A test of the form `not a and not b` that fails.
either :
    {P Q : Type 0} (a b : Bool) → (not a && not b) ≡ false → (a ≡ true → P) → (b ≡ true → Q) → P ⊎ Q
either true b h f g = inl (f refl)
either false true h f g = inr (g refl)
either false false h f g = cc

not_either : (a b : Bool) → (a ≡ true) ⊎ (b ≡ true) → (not a && not b) ≡ false
not_either a b h = ground arith

-- An edge with which the validator finds no fault by itself.
pub record IsGoodEdge (known : List Key) (e : Edge) : Type 0 where
  pub outcome : (e.outcome ≡ text "success") ⊎ (e.outcome ≡ text "error")
  pub source : (e.source ≡ start_key) ⊎ IsIn e.source known
  pub target : (e.target ≡ end_key) ⊎ IsIn e.target known
  pub leaves : e.source ≢ end_key
  pub enters : e.target ≢ start_key

pub edge_errors-IsGoodEdge :
    (known : List Key) (e : Edge) → edge_errors known e ≡ [] → IsGoodEdge known e
unfolding edge_errors
edge_errors-IsGoodEdge known e h =
    let (o, h1) = when-append-nil _ _ _ h in
    let (s, h2) = when-append-nil _ _ _ h1 in
    let (t, h3) = when-append-nil _ _ _ h2 in
    let (l, h4) = when-append-nil _ _ _ h3 in
    record {
      outcome =
          outcomes (contains-IsIn e.outcome (text "success" ∷ text "error" ∷ []) (of_not _ o));
      source =
          either (e.source == start_key) _ s (==_eq e.source start_key)
            (contains-IsIn e.source known);
      target =
          either (e.target == end_key) _ t (==_eq e.target end_key) (contains-IsIn e.target known);
      leaves = ==_ne e.source end_key l;
      enters = ==_ne e.target start_key (when-nil _ _ h4);
    }
  where
    outcomes :
        IsIn e.outcome (text "success" ∷ text "error" ∷ [])
        → (e.outcome ≡ text "success") ⊎ (e.outcome ≡ text "error")
    outcomes (inl p) = inl p
    outcomes (inr (inl p)) = inr p
    outcomes (inr (inr p)) = absurd p

pub IsGoodEdge-edge_errors :
    (known : List Key) (e : Edge) → IsGoodEdge known e → edge_errors known e ≡ []
unfolding edge_errors
IsGoodEdge-edge_errors known e h = ground (
  arith,
  outcomes h.outcome,
  not_either (e.source == start_key) (contains e.source known) (source h.source),
  not_either (e.target == end_key) (contains e.target known) (target h.target),
  ==_ne_iff e.source end_key h.leaves,
  ==_ne_iff e.target start_key h.enters,
)
  where
    outcomes :
        (e.outcome ≡ text "success") ⊎ (e.outcome ≡ text "error")
        → contains e.outcome (text "success" ∷ text "error" ∷ []) ≡ true
    outcomes (inl p) = IsIn-contains e.outcome (text "success" ∷ text "error" ∷ []) (inl p)
    outcomes (inr p) = IsIn-contains e.outcome (text "success" ∷ text "error" ∷ []) (inr (inl p))

    source :
        (e.source ≡ start_key) ⊎ IsIn e.source known
        → ((e.source == start_key) ≡ true) ⊎ (contains e.source known ≡ true)
    source (inl p) = inl ((key_eq.decides e.source start_key).1 p)
    source (inr p) = inr (IsIn-contains e.source known p)

    target :
        (e.target ≡ end_key) ⊎ IsIn e.target known
        → ((e.target == end_key) ≡ true) ⊎ (contains e.target known ≡ true)
    target (inl p) = inl ((key_eq.decides e.target end_key).1 p)
    target (inr p) = inr (IsIn-contains e.target known p)

-- Counting one more.
count_of-bump :
    (c : Counts) (j k : Key)
    → count_of (bump c j) k ≡ (if j == k then suc (count_of c k) else count_of c k)
unfolding count_of bump
count_of-bump [] j k = refl
count_of-bump ((i, n) ∷ rest) j k =
    ground
      (arith, count_of-bump rest j k, key_eq.decides i j, key_eq.decides i k, key_eq.decides j k)

successors-cons :
    (a : Adjacency) (src dst n m : Key)
    → IsIn m (successors ((src, dst) ∷ a) n) ↔ (IsIn m (successors a n) ⊎ ((src ≡ n) × (m ≡ dst)))
unfolding successors
successors-cons a src dst n m = elim (Bool-cases (src == n)) [
  | inl same ↦ rw same (
    λ h. elim h [ inl e ↦ inr (==_eq src n same, e) | inr old ↦ inl old ],
    λ h. elim h [ inl old ↦ inr old | inr new ↦ inl new.1 ],
  )
  | inr other ↦
      rw other
        (λ h. inl h, λ h. elim h [ inl old ↦ old | inr new ↦ absurd (==_ne src n other new.0) ])
]

successors-add_edge :
    (a : Adjacency) (src dst n m : Key)
    → IsIn m (successors (add_edge a src dst) n)
      ↔ (IsIn m (successors a n) ⊎ ((src ≡ n) × (m ≡ dst)))
unfolding add_edge
successors-add_edge a src dst n m = elim (Bool-cases (contains dst (successors a src))) [
  | inr new ↦ rw (new, add_edge) (successors-cons a src dst n m)
  | inl old ↦
      rw (old, add_edge)
        (
          λ h. inl h,
          λ h. elim h [
            | inl there ↦ there
            | inr same ↦ rw same.1 (
                subst (λ k. IsIn dst (successors a k)) same.0
                  (contains-IsIn dst (successors a src) old))
          ],
        )
]

-- The edges that may count against a node's one error edge.
abbrev pub is_error_edge : Key → Edge → Bool
is_error_edge k e = e.outcome == text "error" && (not (is_end e.source) && e.source == k)

-- Some edge of the list leads from `n` to `m`.
abbrev pub HasEdge : List Edge → Key → Key → Type 0
HasEdge [] n m = ⊥
HasEdge (e ∷ rest) n m = ((e.source ≡ n) × (m ≡ e.target)) ⊎ HasEdge rest n m

module _ (known : List Key) where
  pub errors-scan_list :
      (s : EdgeScan) (es : List Edge)
      → (scan_list known s es).errors ≡ []
      → (s.errors ≡ []) × All (IsGoodEdge known) es
  unfolding scan_list record_edge
  errors-scan_list s [] h = (h, tt)
  errors-scan_list s (e ∷ rest) h =
      let (now, later) = errors-scan_list (record_edge known s e) rest h in
      let (before, here) = nil_of_append s.errors (edge_errors known e) now in
      (before, (edge_errors-IsGoodEdge known e here, later))

  pub scan_list-errors :
      (s : EdgeScan) (es : List Edge)
      → s.errors ≡ []
      → All (IsGoodEdge known) es
      → (scan_list known s es).errors ≡ []
  unfolding scan_list record_edge
  scan_list-errors s [] h good = h
  scan_list-errors s (e ∷ rest) h good =
      scan_list-errors (record_edge known s e) rest (rw (h, IsGoodEdge-edge_errors known e good.0))
        good.1

  pub start_edges-scan_list :
      (s : EdgeScan) (es : List Edge)
      → (scan_list known s es).start_edges
        ≡ s.start_edges + count_where (λ (e : Edge). e.source == start_key) es
  unfolding scan_list record_edge
  start_edges-scan_list s [] = omega arith
  start_edges-scan_list s (e ∷ rest) =
      ground (arith, start_edges-scan_list (record_edge known s e) rest)

  pub error_counts-scan_list :
      (s : EdgeScan) (es : List Edge) (k : Key)
      → count_of (scan_list known s es).error_counts k
        ≡ count_of s.error_counts k + count_where (is_error_edge k) es
  unfolding scan_list record_edge
  error_counts-scan_list s [] k = omega arith
  error_counts-scan_list s (e ∷ rest) k = ground (
    arith,
    error_counts-scan_list (record_edge known s e) rest k,
    count_of-bump s.error_counts e.source k,
  )

  pub adjacency-scan_list :
      (s : EdgeScan) (es : List Edge) (n m : Key)
      → IsIn m (successors (scan_list known s es).adjacency n)
        ↔ (IsIn m (successors s.adjacency n) ⊎ HasEdge es n m)
  unfolding scan_list record_edge
  adjacency-scan_list s [] n m = (λ h. inl h, λ h. elim h [ inl old ↦ old | inr new ↦ absurd new ])
  adjacency-scan_list s (e ∷ rest) n m =
      let ih = adjacency-scan_list (record_edge known s e) rest n m in
      let one = successors-add_edge s.adjacency e.source e.target n m in ground (arith, ih, one)
