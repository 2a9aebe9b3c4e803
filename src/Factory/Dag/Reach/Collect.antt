-- ===== src/Factory/Dag/Reach/Collect.antt =====
-- What one round of the search from START adds (backend/app/factory/dag.py).
use concierge_agent.Prelude.{
  ℕ, ◌+◌, ◌≤◌, ◌<◌, ◌≡◌, ◌⊎◌, inl, inr, refl, subst, false, not, List, [], ◌∷◌, arith, IsIn,
  Bool-cases, length, count_where, contains, contains-IsIn, ◌==◌,
}
use concierge_agent.Factory.Json.{Key, key_eq}
use concierge_agent.Factory.Dag.Cycle.{Adjacency, successors}
use concierge_agent.Factory.Dag.Reach.{Frontier, collect}

-- The round adds the items of `l`, and what is new is pending.
pub record IsCollected (f g : Frontier) (l : List Key) : Type 0 where
  pub kept : (k : Key) → IsIn k f.reachable → IsIn k g.reachable
  pub added : (k : Key) → IsIn k l → IsIn k g.reachable
  pub origin : (k : Key) → IsIn k g.reachable → IsIn k f.reachable ⊎ IsIn k l
  pub waits : (k : Key) → IsIn k f.pending → IsIn k g.pending
  pub queued : (k : Key) → IsIn k g.pending → IsIn k f.pending ⊎ IsIn k g.reachable
  pub fresh : (k : Key) → IsIn k g.reachable → IsIn k f.reachable ⊎ IsIn k g.pending

IsCollected-old :
    (f g : Frontier) (n : Key) (rest : List Key)
    → IsIn n f.reachable
    → IsCollected f g rest
    → IsCollected f g (n ∷ rest)
IsCollected-old f g n rest at h = record {
  kept = h.kept;
  added = λ k m. elim m [ inl e ↦ h.kept k (rw e at) | inr m' ↦ h.added k m' ];
  origin = λ k m. elim (h.origin k m) [ inl old ↦ inl old | inr new ↦ inr (inr new) ];
  waits = h.waits;
  queued = h.queued;
  fresh = h.fresh;
}

abbrev push : Key → Frontier → Frontier
push n f = record { reachable = n ∷ f.reachable; pending = n ∷ f.pending }

IsCollected-new :
    (f g : Frontier) (n : Key) (rest : List Key)
    → IsCollected (push n f) g rest
    → IsCollected f g (n ∷ rest)
IsCollected-new f g n rest h = record {
  kept = λ k m. h.kept k (inr m);
  added = λ k m. elim m [ inl e ↦ h.kept k (inl e) | inr m' ↦ h.added k m' ];
  origin = λ k m. elim (h.origin k m) [
    | inl old ↦ elim old [ inl e ↦ inr (inl e) | inr older ↦ inl older ]
    | inr new ↦ inr (inr new)
  ];
  waits = λ k m. h.waits k (inr m);
  queued = λ k m. elim (h.queued k m) [
    | inl old ↦ elim old [ inl e ↦ inr (h.kept k (inl e)) | inr older ↦ inl older ]
    | inr new ↦ inr new
  ];
  fresh = λ k m. elim (h.fresh k m) [
    | inl old ↦ elim old [ inl e ↦ inr (h.waits k (inl e)) | inr older ↦ inl older ]
    | inr new ↦ inr new
  ];
}

pub collect-IsCollected : (f : Frontier) (l : List Key) → IsCollected f (collect f l) l
unfolding collect
collect-IsCollected f [] = record {
  kept = λ k h. h;
  added = λ k h. absurd h;
  origin = λ k h. inl h;
  waits = λ k h. h;
  queued = λ k h. inl h;
  fresh = λ k h. inl h;
}
collect-IsCollected f (n ∷ rest) = elim (Bool-cases (contains n f.reachable)) [
  | inl old ↦
      rw (old, collect)
        (IsCollected-old f (collect f rest) n rest (contains-IsIn n f.reachable old)
          (collect-IsCollected f rest))
  | inr new ↦
      rw (new, collect)
        (IsCollected-new f (collect (push n f) rest) n rest (collect-IsCollected (push n f) rest))
]

-- The edges whose target is not reached yet.
abbrev pub unreached : List Key → Adjacency → ℕ
unreached reachable edges = count_where (λ (e : Key × Key). not (contains e.1 reachable)) edges

pub unreached-le_length :
    (reachable : List Key) (edges : Adjacency) → unreached reachable edges ≤ length edges
unreached-le_length reachable [] = omega arith
unreached-le_length reachable (e ∷ rest) = ground (arith, unreached-le_length reachable rest)

unreached-cons-le :
    (n : Key) (reachable : List Key) (edges : Adjacency)
    → unreached (n ∷ reachable) edges ≤ unreached reachable edges
unreached-cons-le n reachable [] = omega arith
unreached-cons-le n reachable ((src, dst) ∷ rest) =
    ground (arith, unreached-cons-le n reachable rest)

-- Reaching the target of an edge lowers their number.
unreached-cons-lt :
    (n m : Key) (reachable : List Key) (edges : Adjacency)
    → IsIn n (successors edges m)
    → contains n reachable ≡ false
    → unreached (n ∷ reachable) edges < unreached reachable edges
unfolding successors
unreached-cons-lt n m reachable [] at new = absurd at
unreached-cons-lt n m reachable ((src, dst) ∷ rest) at new = elim (Bool-cases (src == m)) [
  | inr other ↦
      let ih = unreached-cons-lt n m reachable rest (rw other at at) new in ground (arith, ih)
  | inl same ↦
      let at' : IsIn n (dst ∷ successors rest m) = rw same at at in
      elim at' [
        | inr behind ↦ ground (arith, unreached-cons-lt n m reachable rest behind new)
        | inl e ↦ ground (
          arith,
          unreached-cons-le n reachable rest,
          subst (λ k. contains k reachable ≡ false) e new,
          (key_eq.decides n dst).1 e,
        )
      ]
]

-- A round pushes no more than it reaches.
pub collect_work :
    (f : Frontier) (m : Key) (edges : Adjacency) (l : List Key)
    → ((k : Key) → IsIn k l → IsIn k (successors edges m))
    → unreached (collect f l).reachable edges + length (collect f l).pending
      ≤ unreached f.reachable edges + length f.pending
unfolding collect
collect_work f m edges [] sub = omega arith
collect_work f m edges (n ∷ rest) sub = elim (Bool-cases (contains n f.reachable)) [
  | inl old ↦ rw (old, collect) (collect_work f m edges rest (λ k at. sub k (inr at)))
  | inr new ↦
      rw (new, collect)
        (omega (
          arith,
          collect_work (push n f) m edges rest (λ k at. sub k (inr at)),
          unreached-cons-lt n m f.reachable edges (sub n (inl refl)) new,
        ))
]
