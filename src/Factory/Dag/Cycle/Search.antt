-- ===== src/Factory/Dag/Cycle/Search.antt =====
-- What a step of the cycle search relies on and what it gives: the colours of the nodes, and
-- the topological order of those that are done (backend/app/factory/dag.py).
use concierge_agent.Prelude.{
  ℕ, ◌≤◌, ◌<◌, ◌≡◌, ◌⊎◌, inl, inr, refl, subst, Bool, true, false, Option, none, some, List, [],
  ◌∷◌, arith, IsIn, All, Bool-cases, length, count_where, if◌then◌else◌, ◌==◌, ==_eq, ==_refl,
  nat_eq,
}
use concierge_agent.Factory.Json.{Key, key_eq}
use concierge_agent.Factory.Dag.Cycle.{Adjacency, State, colour, is_skipped}
use concierge_agent.Factory.Dag.Cycle.Walks.{Walk, IsTopological}

-- The nodes that the search has not met.
abbrev pub unvisited : State → List Key → ℕ
unvisited s nodes = count_where (λ k. colour s k == 0) nodes

pub colour_self : (n : Key) (c : ℕ) (s : State) → colour ((n, c) ∷ s) n ≡ c
unfolding colour
colour_self n c s = rw (==_refl n)

pub colour-cons :
    (n m : Key) (c : ℕ) (s : State) → colour ((n, c) ∷ s) m ≡ (if n == m then c else colour s m)
unfolding colour
colour-cons n m c s = refl

-- A new assignment is the answer at its key, and the old one elsewhere.
pub colour_cases :
    (n m : Key) (c d : ℕ) (s : State)
    → colour ((n, c) ∷ s) m ≡ d
    → ((n ≡ m) × (c ≡ d)) ⊎ (colour s m ≡ d)
unfolding colour
colour_cases n m c d s h = elim (Bool-cases (n == m)) [
  | inl same ↦ inl (==_eq n m same, rw same at h)
  | inr other ↦ inr (rw other at h)
]

pub unvisited-le :
    (s t : State) (nodes : List Key)
    → ((m : Key) → colour t m ≡ 0 → colour s m ≡ 0)
    → unvisited t nodes ≤ unvisited s nodes
unvisited-le s t [] h = omega arith
unvisited-le s t (k ∷ rest) h = ground (arith, h k, unvisited-le s t rest h)

pub unvisited-le_length : (s : State) (nodes : List Key) → unvisited s nodes ≤ length nodes
unvisited-le_length s [] = omega arith
unvisited-le_length s (k ∷ rest) = ground (arith, unvisited-le_length s rest)

pub marked_white : (s : State) (n m : Key) → colour ((n, 1) ∷ s) m ≡ 0 → colour s m ≡ 0
marked_white s n m h = ground (arith, colour_cases n m 1 0 s h)

pub unvisited-lt :
    (s : State) (n : Key) (nodes : List Key)
    → IsIn n nodes
    → colour s n ≡ 0
    → unvisited ((n, 1) ∷ s) nodes < unvisited s nodes
unvisited-lt s n [] at white = absurd at
unvisited-lt s n (k ∷ rest) (inl e) white =
    let le = unvisited-le s ((n, 1) ∷ s) rest (marked_white s n) in
    let now : colour ((n, 1) ∷ s) k ≡ 1 =
      subst (λ j. colour ((n, 1) ∷ s) j ≡ 1) e (colour_self n 1 s) in
    let old : colour s k ≡ 0 = subst (λ j. colour s j ≡ 0) e white in ground (arith, le, now, old)
unvisited-lt s n (k ∷ rest) (inr at) white =
    ground (arith, marked_white s n k, unvisited-lt s n rest at white)

-- What the search may rely on and what it gives.
module _ (adjacency : Adjacency) (known : List Key) where
  -- Of the nodes that are done a topological order exists.
  pub record IsFinished (s : State) : Type 0 where
    pub order : List Key
    pub topological : IsTopological adjacency known order
    pub covers : (m : Key) → colour s m ≡ 2 → IsIn m order
    pub small : (m : Key) → colour s m ≤ 2

  -- How the state changes over a call that finds nothing.
  pub record Grows (s t : State) : Type 0 where
    pub keeps : (m : Key) → colour s m ≡ 2 → colour t m ≡ 2
    pub stacks : (m : Key) → colour t m ≡ 1 → colour s m ≡ 1
    pub white : (m : Key) → colour t m ≡ 0 → colour s m ≡ 0

  pub Grows-trans : (s t u : State) → Grows s t → Grows t u → Grows s u
  Grows-trans s t u g h = record {
    keeps = λ m e. h.keeps m (g.keeps m e);
    stacks = λ m e. g.stacks m (h.stacks m e);
    white = λ m e. g.white m (h.white m e);
  }

  pub Grows-refl : (s : State) → Grows s s
  Grows-refl s = record { keeps = λ m e. e; stacks = λ m e. e; white = λ m e. e }

  -- What a call of `has_cycle` at `n` gives.
  abbrev pub VisitPost : State → Key → Option (State × Bool) → Type 0
  VisitPost s n none = ⊥
  VisitPost s n (some (t, true)) = (k : Key) × Walk adjacency known k k
  VisitPost s n (some (t, false)) = IsFinished t × Grows s t × (colour t n ≡ 2)

  -- What the loop over the successors `l` gives.
  abbrev pub ScanPost : State → List Key → Option (State × Bool) → Type 0
  ScanPost s l none = ⊥
  ScanPost s l (some (t, true)) = (k : Key) × Walk adjacency known k k
  ScanPost s l (some (t, false)) =
      IsFinished t × Grows s t × All (λ m. is_skipped known m ≡ false → colour t m ≡ 2) l

  -- What a call of `has_cycle` at `n` may rely on.
  pub record IsReady (depth : ℕ) (s : State) (n : Key) : Type 0 where
    pub finished : IsFinished s
    pub room : unvisited s known ≤ depth
    pub white : colour s n ≡ 0
    pub node : IsIn n known
    pub paths : (g : Key) → colour s g ≡ 1 → Walk adjacency known g n

  pub scan_cons :
      (s s' : State) (x : Key) (rest : List Key) (r : Option (State × Bool))
      → Grows s s'
      → (is_skipped known x ≡ false → colour s' x ≡ 2)
      → ScanPost s' rest r
      → ScanPost s (x ∷ rest) r
  scan_cons s s' x rest none g f h = h
  scan_cons s s' x rest (some (t, true)) g f h = h
  scan_cons s s' x rest (some (t, false)) g f h =
      (h.0, Grows-trans s s' t g h.1, (λ real. h.1.keeps x (f real), h.2))
