-- ===== src/Factory/Dag/Cycle/Walks.antt =====
-- Walks over the edges that the cycle search follows, and the topological lists that exclude
-- closed walks.
use concierge_agent.Prelude.{
  ◌≡◌, ◌≢◌, ◌↔◌, arith, ==_ne, ==_ne_iff, contains-IsIn, IsIn-contains, inl, inr, subst, false,
  List, [], ◌∷◌, IsIn,
}
use concierge_agent.Factory.Json.{Key, key_eq}
use concierge_agent.Factory.Dag.Cycle.{Adjacency, successors, start_key, end_key, is_skipped}

pub is_skipped_iff :
    (known : List Key) (n : Key)
    → (is_skipped known n ≡ false) ↔ (IsIn n known × (n ≢ start_key) × (n ≢ end_key))
unfolding is_skipped
is_skipped_iff known n = (
  λ h. (
    contains-IsIn n known (ground arith),
    ==_ne n start_key (ground arith),
    ==_ne n end_key (ground arith),
  ),
  λ h.
      ground (arith, IsIn-contains n known h.0, ==_ne_iff n start_key h.1, ==_ne_iff n end_key h.2),
)

module _ (adjacency : Adjacency) (known : List Key) where
  -- An edge between nodes, which is neither from nor to an end.
  pub record IsLink (n m : Key) : Type 0 where
    pub edge : IsIn m (successors adjacency n)
    pub real : is_skipped known m ≡ false

  pub data Walk : Key → Key → Type 0 where
    one : {n m : Key} → IsLink n m → Walk n m
    more : {n m : Key} (k : Key) → IsLink n k → Walk k m → Walk n m

  pub walk_extend : (n m k : Key) → Walk n m → IsLink m k → Walk n k
  walk_extend n m k (one a) l = more m a (one l)
  walk_extend n m k (more j a w) l = more j a (walk_extend j m k w l)

  -- Each item has its links among the items behind it.
  abbrev pub IsTopological : List Key → Type 0
  IsTopological [] = Unit
  IsTopological (n ∷ rest) = ((m : Key) → IsLink n m → IsIn m rest) × IsTopological rest

  topological_link :
      (order : List Key) (n m : Key)
      → IsTopological order
      → IsIn n order
      → IsLink n m
      → IsIn m order
  topological_link [] n m h at l = absurd at
  topological_link (x ∷ rest) n m h (inl e) l = inr (h.0 m (subst (λ k. IsLink k m) e l))
  topological_link (x ∷ rest) n m h (inr at) l = inr (topological_link rest n m h.1 at l)

  topological_walk :
      (order : List Key) (n m : Key) → IsTopological order → IsIn n order → Walk n m → IsIn m order
  topological_walk order n m h at (one l) = topological_link order n m h at l
  topological_walk order n m h at (more k l w) =
      topological_walk order k m h (topological_link order n k h at l) w

  -- A node of a topological list is on no closed walk.
  pub topological_acyclic :
      (order : List Key) (n : Key) → IsTopological order → IsIn n order → ¬ (Walk n n)
  topological_acyclic [] n h at w = at
  topological_acyclic (x ∷ rest) n h (inr at) w = topological_acyclic rest n h.1 at w
  topological_acyclic (x ∷ rest) n h (inl e) (one l) =
      topological_acyclic rest n h.1 (h.0 n (subst (λ k. IsLink k n) e l)) (one l)
  topological_acyclic (x ∷ rest) n h (inl e) (more k l w) =
      let behind : IsIn k rest = h.0 k (subst (λ j. IsLink j k) e l) in
      topological_acyclic rest n h.1 (topological_walk rest k n h.1 behind w) (more k l w)
