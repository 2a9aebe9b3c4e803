-- ===== src/Ambient/Events/Lineage.antt =====
-- Causation chains in the event store (backend/app/ambient/store.py).
use concierge_agent.Prelude.{
  ℕ, zero, suc, ◌+◌, ◌<◌, ◌≡◌, sym, ap, ◌∙◌, subst, ◌≢◌, ◌⊎◌, inl, inr, true, false, Option, none,
  some, [], ◌∷◌, arith, some-inj, of_then, of_else, Bool-cases, Option-cases, ◌==◌, nat_eq,
  option_eq, ==_eq,
}
use concierge_agent.Ambient.Events.Cases.{emit_event_cases}
use concierge_agent.Ambient.Events.{
  Uuid, AmbientEvent, Events, Emission, Env, get_event, max_depth, routine_in_chain_from,
  routine_in_chain, chain_guards, new_event, emit_event,
}

-- `f` is `e` or stands above it in its causation chain.
pub data Chain (table : Events) (f : AmbientEvent) : AmbientEvent → Type 0 where
  here : {e : AmbientEvent} → e ≡ f → Chain table f e
  above :
      {e : AmbientEvent} (cause : Uuid) (c : AmbientEvent)
      → e.causation_id ≡ some cause
      → get_event table cause ≡ some c
      → Chain table f c
      → Chain table f e

-- How a row stands to the rows that are older than it.
pub data IsLinked (older : Events) (e : AmbientEvent) : Type 0 where
  root : e.causation_id ≡ none → e.depth ≡ 0 → e.correlation_id ≡ some e.id → IsLinked older e
  derived :
      (c : AmbientEvent) (chain : Uuid)
      → get_event older c.id ≡ some c
      → e.causation_id ≡ some c.id
      → e.depth ≡ c.depth + 1
      → e.depth < max_depth
      → c.correlation_id ≡ some chain
      → e.correlation_id ≡ some chain
      → ((r : Uuid) (f : AmbientEvent)
          → e.routine_id ≡ some r
          → Chain older f c
          → f.routine_id ≢ some r)
      → IsLinked older e

abbrev pub IsSound : Events → Type 0
IsSound [] = Unit
IsSound (e ∷ older) = (get_event older e.id ≡ none) × IsLinked older e × IsSound older

-- The cause that a caller passes is a row of the table.
abbrev pub IsStored : Events → Option AmbientEvent → Type 0
IsStored table none = Unit
IsStored table (some c) = get_event table c.id ≡ some c

-- A row that was found stays found when a row with a new id is put in front.
get_event-cons :
    (e c : AmbientEvent) (older : Events) (id : Uuid)
    → get_event older e.id ≡ none
    → get_event older id ≡ some c
    → get_event (e ∷ older) id ≡ some c
get_event-cons e c older id new found = elim (Bool-cases (e.id == id)) [
  | inl same ↦ ground (arith, ==_eq e.id id same)
  | inr other ↦ rw other found
]

get_event_cases :
    (e c : AmbientEvent) (older : Events) (id : Uuid)
    → get_event (e ∷ older) id ≡ some c
    → (e ≡ c) ⊎ (get_event older id ≡ some c)
get_event_cases e c older id found = elim (Bool-cases (e.id == id)) [
  | inl same ↦ inl (some-inj e c (of_then _ same found))
  | inr other ↦ inr (of_else _ other found)
]

pub id-get_event :
    (table : Events) (id : Uuid) (c : AmbientEvent) → get_event table id ≡ some c → c.id ≡ id
id-get_event [] id c found = cc
id-get_event (e ∷ older) id c found = elim (Bool-cases (e.id == id)) [
  | inl same ↦ ground (arith, some-inj e c (of_then _ same found), ==_eq e.id id same)
  | inr other ↦ id-get_event older id c (of_else _ other found)
]

pub get_event-id :
    (table : Events) (id : Uuid) (c : AmbientEvent)
    → get_event table id ≡ some c
    → get_event table c.id ≡ some c
get_event-id table id c found = ap (get_event table) (id-get_event table id c found) ∙ found

-- What soundness gives of one row, stated over the whole table.
record IsPlaced (table : Events) (e : AmbientEvent) : Type 0 where
  bounded : e.depth < max_depth
  chained : (chain : Uuid) × (e.correlation_id ≡ some chain)
  caused :
      (cause : Uuid)
      → e.causation_id ≡ some cause
      → (c : AmbientEvent) × (get_event table cause ≡ some c) × (e.depth ≡ c.depth + 1)

IsLinked-IsPlaced : (older : Events) (e : AmbientEvent) → IsLinked older e → IsPlaced older e
IsLinked-IsPlaced older e (root p d q) = record {
  bounded = omega arith;
  chained = (e.id, q);
  caused = λ cause h. cc;
}
IsLinked-IsPlaced older e (derived c chain found p d lt q k once) = record {
  bounded = lt;
  chained = (chain, k);
  caused = λ cause h. (c, rw (some-inj cause c.id (sym h ∙ p)) found, d);
}

IsPlaced-cons :
    (x e : AmbientEvent) (older : Events)
    → get_event older x.id ≡ none
    → IsPlaced older e
    → IsPlaced (x ∷ older) e
IsPlaced-cons x e older new h = record {
  bounded = h.bounded;
  chained = h.chained;
  caused = λ cause p.
      let (c, found, d) = h.caused cause p in (c, get_event-cons x c older cause new found, d);
}

IsSound-IsPlaced :
    (table : Events) (id : Uuid) (e : AmbientEvent)
    → IsSound table
    → get_event table id ≡ some e
    → IsPlaced table e
IsSound-IsPlaced [] id e h found = cc
IsSound-IsPlaced (x ∷ older) id e h found = elim (get_event_cases x e older id found) [
  | inl same ↦
      IsPlaced-cons x e older h.0 (subst (IsPlaced older) same (IsLinked-IsPlaced older x h.1))
  | inr old ↦ IsPlaced-cons x e older h.0 (IsSound-IsPlaced older id e h.2 old)
]

-- The bounded walk meets every ancestor: the depth of a row bounds the length of its chain.
routine_in_chain_from-Chain :
    (rounds : ℕ) (table : Events) (f e : AmbientEvent) (r : Uuid)
    → IsSound table
    → get_event table e.id ≡ some e
    → e.depth < rounds
    → Chain table f e
    → f.routine_id ≡ some r
    → routine_in_chain_from rounds table (some e) r ≡ true
unfolding routine_in_chain_from
routine_in_chain_from-Chain zero table f e r sound known lt chain named = elim lt [ ]
routine_in_chain_from-Chain (suc n) table f e r sound known lt (here same) named =
    rw (ap (λ (x : AmbientEvent). x.routine_id) same, named, routine_in_chain_from) (ground arith)
routine_in_chain_from-Chain (suc n) table f e r sound known lt (above cause c p found chain) named =
    elim (Bool-cases (e.routine_id == some r)) [
      | inl hit ↦ rw (hit, routine_in_chain_from)
      | inr miss ↦
          let (c', found', d) = (IsSound-IsPlaced table e.id e sound known).caused cause p in
          let same : c' ≡ c = some-inj c' c (sym found' ∙ found) in
          rw (miss, p, found, routine_in_chain_from)
            (routine_in_chain_from-Chain n table f c r sound (get_event-id table cause c found)
              (omega (arith, ap (λ (x : AmbientEvent). x.depth) same)) chain named)
    ]

-- The guards let a cause pass only if it is shallow and its chain is free of the routine.
chain_guards-some :
    (table : Events) (c : AmbientEvent) (routine : Option Uuid)
    → chain_guards table (some c) routine ≡ none
    → (c.depth + 1 < max_depth)
      × ((r : Uuid) → routine ≡ some r → routine_in_chain table c r ≡ false)
unfolding chain_guards
chain_guards-some table c none h = (ground arith, λ r e. cc)
chain_guards-some table c (some r) h =
    (ground arith, λ r' e. ground (arith, some-inj r r' e, Bool-cases (routine_in_chain table c r)))

new_event-IsLinked :
    (env : Env) (a : Emission) (table : Events)
    → IsSound table
    → IsStored table a.caused_by
    → chain_guards table a.caused_by a.routine_id ≡ none
    → IsLinked table (new_event env a)
unfolding new_event routine_in_chain
new_event-IsLinked env a table sound known clear = elim (Option-cases a.caused_by) [
  | inl e ↦ root (simp e) (simp e) (simp e)
  | inr (c, e) ↦
      let here_c : get_event table c.id ≡ some c = subst (IsStored table) e known in
      let placed = IsSound-IsPlaced table c.id c sound here_c in
      let (shallow, free) =
        chain_guards-some table c a.routine_id
          (subst (λ o. chain_guards table o a.routine_id ≡ none) e clear) in
      let (chain, k) = placed.chained in
      derived c chain here_c (simp e) (simp e) (simp e shallow) k (simp (e, k))
        (λ r f named up again. ground (
          arith,
          free r named,
          routine_in_chain_from-Chain (max_depth + 1) table f c r sound here_c
              (omega (arith, placed.bounded)) up again,
        ))
]

-- Whatever is emitted, a sound table stays sound, if the cause that the caller passes is a row and
-- the fresh id is new: ids are unique, and each row is a root or is linked to an older row, with its
-- depth and correlation, and with no row of its own routine above it in its chain.
pub emit_event-IsSound :
    (env : Env) (a : Emission) (table : Events)
    → IsSound table
    → IsStored table a.caused_by
    → get_event table env.fresh ≡ none
    → IsSound (emit_event env a table).1
unfolding new_event
emit_event-IsSound env a table sound known new = elim (emit_event_cases env a table) [
  | inl kept ↦ rw kept.0 sound
  | inr (e, ok) ↦ rw e (new, new_event-IsLinked env a table sound known ok.chain, sound)
]
