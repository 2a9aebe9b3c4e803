-- ===== src/Factory/Dag/Reach/Decides.antt =====
-- The search from START, and the keys to which a route leads (backend/app/factory/dag.py).
use concierge_agent.Prelude.{
  ℕ, zero, suc, ◌+◌, ◌≤◌, ◌≡◌, ◌⊎◌, ◌↔◌, inl, inr, refl, sym, ap, subst, Option, none, some, List,
  [], ◌∷◌, arith, IsIn, length, List-cases,
}
use concierge_agent.Factory.Json.{Key, key_eq}
use concierge_agent.Factory.Dag.Cycle.{Adjacency, successors, start_key}
use concierge_agent.Factory.Dag.Reach.{Frontier, collect, explore, reachable_from_start}
use concierge_agent.Factory.Dag.Reach.Collect.{
  IsCollected, collect-IsCollected, unreached, unreached-le_length, collect_work,
}

-- The keys to which a path of one edge or more leads.
pub data Route (adjacency : Adjacency) (n : Key) : Key → Type 0 where
  edge : {m : Key} → IsIn m (successors adjacency n) → Route adjacency n m
  further :
      {k m : Key} → Route adjacency n k → IsIn m (successors adjacency k) → Route adjacency n m

module _ (adjacency : Adjacency) where
  record Inv (f : Frontier) : Type 0 where
    sound : (k : Key) → IsIn k f.reachable → Route adjacency start_key k
    known : (k : Key) → IsIn k f.pending → (k ≡ start_key) ⊎ IsIn k f.reachable
    started :
        IsIn start_key f.pending
        ⊎ ((m : Key) → IsIn m (successors adjacency start_key) → IsIn m f.reachable)
    closed :
        (k m : Key)
        → IsIn k f.reachable
        → IsIn m (successors adjacency k)
        → IsIn k f.pending ⊎ IsIn m f.reachable

  -- One round: `g` is the frontier after the successors of the popped key `n`.
  module _ (f g : Frontier) (n : Key) (rest : List Key) (e : f.pending ≡ n ∷ rest) (h : Inv f)
      (c : IsCollected (record f { pending = rest }) g (successors adjacency n)) where
    popped : (k : Key) → IsIn k f.pending → (k ≡ n) ⊎ IsIn k rest
    popped k at = subst (IsIn k) e at

    step : (k : Key) → IsIn k (successors adjacency n) → Route adjacency start_key k
    step k at = elim (h.known n (subst (IsIn n) (sym e) (inl refl))) [
      | inl first ↦ edge (subst (λ j. IsIn k (successors adjacency j)) first at)
      | inr reached ↦ further (h.sound n reached) at
    ]

    -- The popped key and what waits behind it keep what they owe.
    paid :
        (k : Key)
        → (k ≡ n) ⊎ IsIn k rest
        → IsIn k g.pending ⊎ ((m : Key) → IsIn m (successors adjacency k) → IsIn m g.reachable)
    paid k (inl e') = inr (λ m at. c.added m (subst (λ j. IsIn m (successors adjacency j)) e' at))
    paid k (inr at) = inl (c.waits k at)

    Inv-round : Inv g
    Inv-round = record {
      sound = λ k m. elim (c.origin k m) [ inl old ↦ h.sound k old | inr new ↦ step k new ];
      known = λ k m. elim (c.queued k m) [
        | inr reached ↦ inr reached
        | inl waits ↦ elim (h.known k (subst (IsIn k) (sym e) (inr waits))) [
          | inl first ↦ inl first
          | inr old ↦ inr (c.kept k old)
        ]
      ];
      started = elim h.started [
        | inl waits ↦ paid start_key (popped start_key waits)
        | inr all ↦ inr (λ m at. c.kept m (all m at))
      ];
      closed = λ k m reached at. elim (c.fresh k reached) [
        | inr waits ↦ inl waits
        | inl old ↦ elim (h.closed k m old at) [
          | inr there ↦ inr (c.kept m there)
          | inl waits ↦ elim (paid k (popped k waits)) [
            | inl still ↦ inl still
            | inr all ↦ inr (all m at)
          ]
        ]
      ];
    }

  Inv-collect :
      (f : Frontier) (n : Key) (rest : List Key)
      → f.pending ≡ n ∷ rest
      → Inv f
      → Inv (collect (record f { pending = rest }) (successors adjacency n))
  Inv-collect f n rest e h =
      Inv-round f (collect (record f { pending = rest }) (successors adjacency n)) n rest e h
        (collect-IsCollected (record f { pending = rest }) (successors adjacency n))

  -- With nothing pending, all to which a route leads is reached.
  complete :
      (f : Frontier) (k : Key)
      → Inv f
      → f.pending ≡ []
      → Route adjacency start_key k
      → IsIn k f.reachable
  complete f k h e (edge at) = elim h.started [
    | inl waits ↦ absurd (subst (IsIn start_key) e waits)
    | inr all ↦ all k at
  ]
  complete f k h e (further {k = j} r at) = elim (h.closed j k (complete f j h e r) at) [
    | inl waits ↦ absurd (subst (IsIn j) e waits)
    | inr reached ↦ reached
  ]

  abbrev ExplorePost : Option (List Key) → Type 0
  ExplorePost none = ⊥
  ExplorePost (some reachable) = (k : Key) → IsIn k reachable ↔ Route adjacency start_key k

  explore_post :
      (rounds : ℕ) (f : Frontier)
      → Inv f
      → unreached f.reachable adjacency + length f.pending ≤ rounds
      → ExplorePost (explore rounds adjacency f)
  unfolding explore
  explore_post zero f h room = elim (List-cases f.pending) [
    | inl e ↦ rw (e, explore) (λ k. (h.sound k, complete f k h e))
    | inr (n, rest, e) ↦ absurd (omega (arith, ap length e))
  ]
  explore_post (suc rounds) f h room = elim (List-cases f.pending) [
    | inl e ↦ rw (e, explore) (λ k. (h.sound k, complete f k h e))
    | inr (n, rest, e) ↦
        rw (e, explore)
          (explore_post rounds _ (Inv-collect f n rest e h) (
            omega (
              arith,
              ap length e,
              collect_work (record f { pending = rest }) n adjacency (successors adjacency n)
                  (λ k at. at),
            )))
  ]

  Inv-start : Inv (record { reachable = []; pending = start_key ∷ [] })
  Inv-start = record {
    sound = λ k at. absurd at;
    known = λ k at. elim at [ inl e ↦ inl e | inr h ↦ absurd h ];
    started = inl (inl refl);
    closed = λ k m at. absurd at;
  }

  found :
      (r : Option (List Key))
      → ExplorePost r
      → (reachable : List Key) × (r ≡ some reachable)
        × ((k : Key) → IsIn k reachable ↔ Route adjacency start_key k)
  found none h = absurd h
  found (some reachable) h = (reachable, refl, h)

  -- The search from START ends, with exactly the keys to which a route leads from START.
  pub reachable_from_start_decides :
      (reachable : List Key) × (reachable_from_start adjacency ≡ some reachable)
      × ((k : Key) → IsIn k reachable ↔ Route adjacency start_key k)
  unfolding reachable_from_start
  reachable_from_start_decides = found _ (
      explore_post (suc (length adjacency)) (record { reachable = []; pending = start_key ∷ [] })
        Inv-start (omega (arith, unreached-le_length [] adjacency)))
