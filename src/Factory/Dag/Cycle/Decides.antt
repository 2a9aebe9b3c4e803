-- ===== src/Factory/Dag/Cycle/Decides.antt =====
-- The answer of the cycle search, and closed walks (backend/app/factory/dag.py).
use concierge_agent.Prelude.{
  ℕ, zero, suc, ◌≤◌, ◌<◌, ◌≡◌, ◌≢◌, ◌⊎◌, inl, inr, refl, sym, subst, Bool, true, false, Option,
  none, some, List, [], ◌∷◌, arith, IsIn, All, All-IsIn, Bool-cases, length, ◌==◌, ==_eq, nat_eq,
  contains-IsIn,
}
use concierge_agent.Factory.Json.{Key, key_eq}
use concierge_agent.Factory.Dag.Cycle.{
  Adjacency, State, successors, colour, is_skipped, scan, finish, has_cycle, any_cycle,
  contains_cycle,
}
use concierge_agent.Factory.Dag.Cycle.Walks.{Walk, one, more, walk_extend, topological_acyclic}
use concierge_agent.Factory.Dag.Cycle.Search.{
  unvisited, unvisited-le_length, colour_self, colour-cons, colour_cases, unvisited-le,
  unvisited-lt, IsFinished, Grows, Grows-refl, VisitPost, ScanPost, IsReady, scan_cons,
}

is_skipped-IsIn : (known : List Key) (n : Key) → is_skipped known n ≡ false → IsIn n known
unfolding is_skipped
is_skipped-IsIn known n h = contains-IsIn n known (ground arith)

one-le-unvisited :
    (s : State) (n : Key) (nodes : List Key) → IsIn n nodes → colour s n ≡ 0 → 0 < unvisited s nodes
one-le-unvisited s n nodes at white = omega (arith, unvisited-lt s n nodes at white)

module _ (adjacency : Adjacency) (known : List Key) where
  IsFinished-marked :
      (s : State) (n : Key) → IsFinished adjacency known s → IsFinished adjacency known ((n, 1) ∷ s)
  IsFinished-marked s n h = record {
    order = h.order;
    topological = h.topological;
    covers = λ m two. h.covers m (ground (arith, colour_cases n m 1 2 s two));
    small = λ m. ground (arith, h.small m, colour_cases n m 1 (colour ((n, 1) ∷ s) m) s refl);
  }

  module _ (depth : ℕ) (n : Key) (go : State → Key → Option (State × Bool))
      (go_post : (s : State) (x : Key)
        → IsReady adjacency known depth s x
        → VisitPost adjacency known s x (go s x)) where
    go_cases :
        (s : State) (x : Key) (rest : List Key) (r : Option (State × Bool))
        → VisitPost adjacency known s x r
        → ((t : State)
            → IsFinished adjacency known t
            → Grows adjacency known s t
            → ScanPost adjacency known t rest (scan go known t rest))
        → ScanPost adjacency known s (x ∷ rest) (elim r [
          | none ↦ none
          | some (s', found) ↦ elim found [ true ↦ some (s', true) | false ↦ scan go known s' rest ]
        ])
    go_cases s x rest none h next = h
    go_cases s x rest (some (t, true)) h next = h
    go_cases s x rest (some (t, false)) h next =
        scan_cons adjacency known s t x rest (scan go known t rest) h.1 (λ _. h.2) (next t h.0 h.1)

    step :
        (x g : Key)
        → is_skipped known x ≡ false
        → IsIn x (successors adjacency n)
        → (g ≡ n) ⊎ Walk adjacency known g n
        → Walk adjacency known g x
    step x g real at (inl e) =
        subst (λ k. Walk adjacency known k x) (sym e) (one (record { edge = at; real = real }))
    step x g real at (inr w) =
        walk_extend adjacency known g n x w (record { edge = at; real = real })

    closed :
        (x : Key)
        → is_skipped known x ≡ false
        → IsIn x (successors adjacency n)
        → (x ≡ n) ⊎ Walk adjacency known x n
        → (k : Key) × Walk adjacency known k k
    closed x real at path = (x, step x x real at path)

    scan_post :
        (s : State) (l : List Key)
        → IsFinished adjacency known s
        → unvisited s known ≤ depth
        → ((g : Key) → colour s g ≡ 1 → (g ≡ n) ⊎ Walk adjacency known g n)
        → ((x : Key) → IsIn x l → IsIn x (successors adjacency n))
        → ScanPost adjacency known s l (scan go known s l)
    unfolding scan
    scan_post s [] fin room paths edges = (fin, Grows-refl adjacency known s, tt)
    scan_post s (x ∷ rest) fin room paths edges = elim (Bool-cases (is_skipped known x)) [
      | inl skip ↦
          rw (skip, scan)
            (scan_cons adjacency known s s x rest (scan go known s rest)
              (Grows-refl adjacency known s) (λ real. absurd (ground arith))
              (scan_post s rest fin room paths (λ y at. edges y (inr at))))
      | inr real ↦ elim (Bool-cases (colour s x == 1)) [
        | inl grey ↦
            rw (real, grey, scan)
              (closed x real (edges x (inl refl)) (paths x (==_eq (colour s x) 1 grey)))
        | inr not_grey ↦ elim (Bool-cases (colour s x == 0)) [
          | inr done ↦
              rw (real, not_grey, done, scan)
                (scan_cons adjacency known s s x rest (scan go known s rest)
                  (Grows-refl adjacency known s) (λ _. ground (arith, fin.small x))
                  (scan_post s rest fin room paths (λ y at. edges y (inr at))))
          | inl white ↦
              rw (real, not_grey, white, scan)
                (go_cases s x rest (go s x)
                  (go_post s x (record {
                    finished = fin;
                    room = room;
                    white = ==_eq (colour s x) 0 white;
                    node = is_skipped-IsIn known x real;
                    paths = λ g e. step x g real (edges x (inl refl)) (paths g e);
                  }))
                  λ t fin' grown.
                    scan_post t rest fin' (omega (arith, unvisited-le s t known grown.white))
                      (λ g e. paths g (grown.stacks g e)) (λ y at. edges y (inr at)))
        ]
      ]
    ]

  finish_post :
      (s : State) (n : Key) (r : Option (State × Bool))
      → colour s n ≡ 0
      → ScanPost adjacency known ((n, 1) ∷ s) (successors adjacency n) r
      → VisitPost adjacency known s n (finish n r)
  finish_post s n none white h = h
  finish_post s n (some (t, true)) white h = h
  finish_post s n (some (t, false)) white h = (
    record {
      order = n ∷ h.0.order;
      topological = (
        λ m link. h.0.covers m (All-IsIn _ (successors adjacency n) m h.2 link.edge link.real),
        h.0.topological,
      );
      covers = λ m two. elim (colour_cases n m 2 2 t two) [
        | inl e ↦ inl (sym e.0)
        | inr old ↦ inr (h.0.covers m old)
      ];
      small = λ m. ground (arith, h.0.small m, colour_cases n m 2 (colour ((n, 2) ∷ t) m) t refl);
    },
    record {
      keeps = λ m two. ground (arith, colour-cons n m 2 t, colour-cons n m 1 s, h.1.keeps m);
      stacks = λ m e. ground (arith, colour-cons n m 2 t, colour-cons n m 1 s, h.1.stacks m);
      white = λ m e. ground (arith, colour-cons n m 2 t, colour-cons n m 1 s, h.1.white m);
    },
    colour_self n 2 t,
  )

  -- Where the search may start it ends, and what it answers holds.
  has_cycle_post :
      (depth : ℕ) (s : State) (n : Key)
      → IsReady adjacency known depth s n
      → VisitPost adjacency known s n (has_cycle depth adjacency known s n)
  unfolding has_cycle
  has_cycle_post zero s n h =
      absurd (omega (arith, one-le-unvisited s n known h.node h.white, h.room))
  has_cycle_post (suc depth) s n h = finish_post s n _ h.white (
      scan_post depth n (has_cycle depth adjacency known) (has_cycle_post depth) ((n, 1) ∷ s)
        (successors adjacency n) (IsFinished-marked s n h.finished)
        (omega (arith, unvisited-lt s n known h.node h.white, h.room))
        (λ g e. elim (colour_cases n g 1 1 s e) [
          | inl here ↦ inl (sym here.0)
          | inr old ↦ inr (h.paths g old)
        ])
        (λ x at. at))

  abbrev AnyPost : List Key → Option Bool → Type 0
  AnyPost nodes none = ⊥
  AnyPost nodes (some true) = (k : Key) × Walk adjacency known k k
  AnyPost nodes (some false) = All (λ n. ¬ (Walk adjacency known n n)) nodes

  -- A node that is done is on no closed walk.
  done_acyclic :
      (s : State) (n : Key)
      → IsFinished adjacency known s
      → colour s n ≡ 2
      → ¬ (Walk adjacency known n n)
  done_acyclic s n fin two =
      topological_acyclic adjacency known fin.order n fin.topological (fin.covers n two)

  AnyPost-cons :
      (n : Key) (rest : List Key) (r : Option Bool)
      → ¬ (Walk adjacency known n n)
      → AnyPost rest r
      → AnyPost (n ∷ rest) r
  AnyPost-cons n rest none free h = h
  AnyPost-cons n rest (some true) free h = h
  AnyPost-cons n rest (some false) free h = (free, h)

  module _ (depth : ℕ) (n : Key) (rest : List Key) where
    any_cases :
        (s : State) (r : Option (State × Bool))
        → VisitPost adjacency known s n r
        → ((t : State)
            → IsFinished adjacency known t
            → Grows adjacency known s t
            → AnyPost rest (any_cycle depth adjacency known t rest))
        → AnyPost (n ∷ rest) (elim r [
          | none ↦ none
          | some (s', found) ↦ elim found [
            | true ↦ some true
            | false ↦ any_cycle depth adjacency known s' rest
          ]
        ])
    any_cases s none h next = h
    any_cases s (some (t, true)) h next = h
    any_cases s (some (t, false)) h next =
        AnyPost-cons n rest _ (done_acyclic t n h.0 h.2) (next t h.0 h.1)

  -- The loop over the nodes, from a state in which no node is in the stack.
  any_cycle_post :
      (depth : ℕ) (s : State) (nodes : List Key)
      → length known ≤ depth
      → IsFinished adjacency known s
      → ((g : Key) → colour s g ≢ 1)
      → ((n : Key) → IsIn n nodes → IsIn n known)
      → AnyPost nodes (any_cycle depth adjacency known s nodes)
  unfolding any_cycle
  any_cycle_post depth s [] room fin calm sub = tt
  any_cycle_post depth s (n ∷ rest) room fin calm sub = elim (Bool-cases (colour s n == 0)) [
    | inr met ↦
        rw (met, any_cycle)
          (AnyPost-cons n rest _ (done_acyclic s n fin (ground (arith, fin.small n, calm n)))
            (any_cycle_post depth s rest room fin calm (λ k at. sub k (inr at))))
    | inl new ↦
        rw (new, any_cycle)
          (any_cases depth n rest s (has_cycle depth adjacency known s n)
            (has_cycle_post depth s n (record {
              finished = fin;
              room = omega (arith, unvisited-le_length s known);
              white = ==_eq (colour s n) 0 new;
              node = sub n (inl refl);
              paths = λ g e. absurd (calm g e);
            }))
            λ t fin' grown.
              any_cycle_post depth t rest room fin' (λ g e. calm g (grown.stacks g e))
                (λ k at. sub k (inr at)))
  ]

  walk_end : (n m : Key) → Walk adjacency known n m → IsIn m known
  walk_end n m (one l) = is_skipped-IsIn known m l.real
  walk_end n m (more k l w) = walk_end k m w

  start-IsFinished : IsFinished adjacency known []
  unfolding colour
  start-IsFinished = record {
    order = [];
    topological = tt;
    covers = λ m two. ground arith;
    small = λ m. omega arith;
  }

  answer :
      (r : Option Bool)
      → AnyPost known r
      → (((k : Key) × Walk adjacency known k k) × (r ≡ some true))
        ⊎ (((k : Key) → ¬ (Walk adjacency known k k)) × (r ≡ some false))
  answer none h = absurd h
  answer (some true) h = inl (h, refl)
  answer (some false) h =
      inr ((λ k w. All-IsIn (λ n. ¬ (Walk adjacency known n n)) known k h (walk_end k k w) w), refl)

  -- The cycle search always answers within its depth: "yes" with a closed walk over the nodes at
  -- hand, or "no" when there is none.
  pub contains_cycle_decides :
      (((k : Key) × Walk adjacency known k k) × (contains_cycle adjacency known ≡ some true))
      ⊎ (((k : Key) → ¬ (Walk adjacency known k k)) × (contains_cycle adjacency known ≡ some false))
  unfolding contains_cycle
  contains_cycle_decides = answer _ (
      any_cycle_post (length known) [] known (omega arith) start-IsFinished
        (λ g. unfold colour in ground arith) (λ n at. at))
