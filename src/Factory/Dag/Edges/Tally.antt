-- ===== src/Factory/Dag/Edges/Tally.antt =====
-- The counts of error edges: what `count_errors` says of them (backend/app/factory/dag.py).
use concierge_agent.Prelude.{
  ◌≤◌, ◌<◌, ◌≡◌, refl, sym, subst, false, ◌&&◌, not, List, [], ◌∷◌, arith, ltb, Bool-cases, inl,
  inr, ◌==◌, ==_refl, ==_eq, ==_ne, ==_ne_iff, nat_eq,
}
use concierge_agent.Factory.Json.{Key, text, key_eq}
use concierge_agent.Factory.Dag.Errors.{when-append-nil, when-false, error_edges}
use concierge_agent.Factory.Dag.Edges.{
  Edge, EdgeScan, Counts, count_of, bump, record_edge, count_errors, is_end,
}
use concierge_agent.Factory.Dag.Edges.Scan.{scan_list}

-- A key has one entry, of one or more.
abbrev pub IsTidy : Counts → Type 0
IsTidy [] = Unit
IsTidy ((k, n) ∷ rest) = (0 < n) × (count_of rest k ≡ 0) × IsTidy rest

count_of-bump_ne :
    (c : Counts) (j k : Key) → (j == k) ≡ false → count_of (bump c j) k ≡ count_of c k
unfolding count_of bump
count_of-bump_ne [] j k h = rw h
count_of-bump_ne ((i, n) ∷ rest) j k h =
    ground (
      arith,
      count_of-bump_ne rest j k h,
      key_eq.decides i j,
      key_eq.decides i k,
      key_eq.decides j k,
    )

bump-IsTidy : (c : Counts) (k : Key) → IsTidy c → IsTidy (bump c k)
unfolding count_of bump
bump-IsTidy [] k h = (omega arith, omega arith, tt)
bump-IsTidy ((j, n) ∷ rest) k h = elim (Bool-cases (j == k)) [
  | inl same ↦ rw (same, bump) (omega arith, h.1, h.2)
  | inr other ↦
      rw (other, bump)
        (
          h.0,
          rw (count_of-bump_ne rest k j (==_ne_iff k j (λ e. ==_ne j k other (sym e)))) h.1,
          bump-IsTidy rest k h.2,
        )
]

record_edge-IsTidy :
    (known : List Key) (s : EdgeScan) (e : Edge)
    → IsTidy s.error_counts
    → IsTidy (record_edge known s e).error_counts
unfolding record_edge
record_edge-IsTidy known s e h =
    elim (Bool-cases (e.outcome == text "error" && not (is_end e.source))) [
      | inl counts ↦ rw counts (bump-IsTidy s.error_counts e.source h)
      | inr none_new ↦ rw none_new h
    ]

pub scan_list-IsTidy :
    (known : List Key) (s : EdgeScan) (es : List Edge)
    → IsTidy s.error_counts
    → IsTidy (scan_list known s es).error_counts
unfolding scan_list
scan_list-IsTidy known s [] h = h
scan_list-IsTidy known s (e ∷ rest) h =
    scan_list-IsTidy known (record_edge known s e) rest (record_edge-IsTidy known s e h)

-- No message: no key counts twice.
pub count_errors-le_one : (c : Counts) (k : Key) → count_errors c ≡ [] → count_of c k ≤ 1
unfolding count_errors count_of
count_errors-le_one [] k h = omega arith
count_errors-le_one ((j, n) ∷ rest) k h =
    let (few, more) = when-append-nil (ltb 1 n) (error_edges j n) (count_errors rest) h in
    ground (arith, count_errors-le_one rest k more)

pub le_one-count_errors :
    (c : Counts) → IsTidy c → ((k : Key) → count_of c k ≤ 1) → count_errors c ≡ []
unfolding count_errors count_of
le_one-count_errors [] tidy h = refl
le_one-count_errors ((j, n) ∷ rest) tidy h =
    let few : ltb 1 n ≡ false = ground (arith, h j, ==_refl j) in
    rw (when-false (ltb 1 n) (error_edges j n) few) (
      le_one-count_errors rest tidy.2 (λ k. elim (Bool-cases (j == k)) [
        | inl same ↦ omega (arith, subst (λ i. count_of rest i ≡ 0) (==_eq j k same) tidy.1)
        | inr other ↦ ground (arith, h k)
      ]))
