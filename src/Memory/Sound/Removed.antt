-- ===== src/Memory/Sound/Removed.antt =====
-- A table from which a row is erased is sound: nothing points at what is gone.
use concierge_agent.Prelude.{
  ◌≡◌, refl, sym, ap, ◌∙◌, Bool, false, not, Option, some, List, [], ◌∷◌, IsIn, inl, inr, All,
  AreDistinctBy, Bool-cases, if-both, ◌==◌, ==_eq, ==_ne, map_key-IsIn, IsIn-map_key, string_eq,
  nat_eq, option_eq, any_where, select, IsIn-select, select-IsIn, some-ne, Option-cases,
}
use concierge_agent.Memory.Rows.{Uuid, Memory, Store, ids, get_memory}
use concierge_agent.Memory.Tombstones.{Env}
use concierge_agent.Memory.Changes.{clear, unlink, erase_row, hard_delete, tombstone_forget}
use concierge_agent.Memory.Sound.{IsRow, IsLinked, IsTable}
use concierge_agent.Memory.Sound.Added.{not-true}
use concierge_agent.Memory.Sound.Maps.{map-AreDistinctBy, map-All, IsIn-map, map-IsIn}

select-All : (p : Memory → Bool) (rows : List Memory) → All IsRow rows → All IsRow (select p rows)
select-All p [] h = tt
select-All p (m ∷ rows) h =
    if-both (All IsRow) (p m) _ _ (λ a. (h.0, select-All p rows h.1)) (λ a. select-All p rows h.1)

select-ids :
    (p : Memory → Bool) (i : Uuid) (rows : List Memory)
    → IsIn i (ids (select p rows))
    → IsIn i (ids rows)
select-ids p i [] at = absurd at
select-ids p i (m ∷ rows) at = elim (Bool-cases (p m)) [
  | inr miss ↦ inr (select-ids p i rows (rw miss at at))
  | inl hit ↦ elim (rw hit at at) [ inl e ↦ inl e | inr rest ↦ inr (select-ids p i rows rest) ]
]

select-AreDistinctBy :
    (p : Memory → Bool) (rows : List Memory)
    → AreDistinctBy (λ m. m.id) rows
    → AreDistinctBy (λ m. m.id) (select p rows)
select-AreDistinctBy p [] d = tt
select-AreDistinctBy p (m ∷ rows) d =
    if-both (AreDistinctBy (λ m. m.id)) (p m) _ _
      (λ a. (λ at. d.0 (select-ids p m.id rows at), select-AreDistinctBy p rows d.1))
      (λ a. select-AreDistinctBy p rows d.1)

-- A reference that stays is not to the row that goes.
clear-some :
    (id i : Uuid) (ref : Option Uuid) → clear id ref ≡ some i → (ref ≡ some i) × ((i == id) ≡ false)
clear-some id i ref h = elim (Bool-cases (ref == some id)) [
  | inl hit ↦ absurd (some-ne i (sym (rw hit at h)))
  | inr miss ↦
      let e = rw miss at h in
      (
        e,
        elim (Bool-cases (i == id)) [
          | inr other ↦ other
          | inl same ↦ absurd (==_ne ref (some id) miss (e ∙ ap some (==_eq i id same)))
        ],
      )
]

clear-kept : (id i : Uuid) → (i == id) ≡ false → clear id (some i) ≡ some i
clear-kept id i other = rw other refl

module _ (id : Uuid) (rows : List Memory) where
  same : (m : Memory) → (unlink id m).id ≡ m.id
  same m = refl

  kept : (r : Memory) → IsIn r rows → (r.id == id) ≡ false → IsIn (unlink id r) (erase_row id rows)
  kept r at other =
      IsIn-map (unlink id) same r (select (λ m. not (m.id == id)) rows)
        (select-IsIn (λ m. not (m.id == id)) r rows at (rw other refl))

  kept-id : (i : Uuid) → IsIn i (ids rows) → (i == id) ≡ false → IsIn i (ids (erase_row id rows))
  kept-id i at other =
      let (r, there, e) = map_key-IsIn (λ m. m.id) i rows at in
      rw e
        (IsIn-map_key (λ m. m.id) (unlink id r) (erase_row id rows) (kept r there (rw e at other)))

  unlink-IsLinked :
      (old : Memory)
      → (old.id == id) ≡ false
      → IsLinked rows old
      → IsLinked (erase_row id rows) (unlink id old)
  unlink-IsLinked old stays linked = record {
    older = λ i e.
        let (ref, other) = clear-some id i old.supersedes e in kept-id i (linked.older i ref) other;
    newer = λ n e.
        let (ref, other) = clear-some id n old.superseded_by e in
        let (r, there, name, back) = linked.newer n ref in
        (
          unlink id r,
          kept r there (rw name other),
          name,
          ap (clear id) back ∙ clear-kept id old.id stays,
        );
  }

  pub erase_row-IsTable : IsTable rows → IsTable (erase_row id rows)
  erase_row-IsTable t =
      let left = select (λ (m : Memory). not (m.id == id)) rows in
      record {
        distinct = map-AreDistinctBy (unlink id) same left (select-AreDistinctBy _ rows t.distinct);
        each =
            map-All (unlink id) same left
              (λ m r. record {
                kind = r.kind;
                scope = r.scope;
                source = r.source;
                stamp = r.stamp;
                origin = r.origin;
              })
              (select-All _ rows t.each);
        linked = λ m at.
            let (old, there, e) = map-IsIn (unlink id) same m left at in
            let (was, stays) = IsIn-select (λ (m : Memory). not (m.id == id)) old rows there in
            rw e (unlink-IsLinked old (not-true _ stays) (t.linked old was));
      }

pub hard_delete-IsTable :
    (id : Uuid) (s : Store) → IsTable s.memories → IsTable ((hard_delete id s).1).memories
unfolding hard_delete
hard_delete-IsTable id s t =
    if-both (λ (o : Bool × Store). IsTable o.1.memories) (any_where (λ m. m.id == id) s.memories) _
      _ (λ hit. erase_row-IsTable id s.memories t) (λ miss. t)

pub tombstone_forget-IsTable :
    (env : Env) (id : Uuid) (s : Store)
    → IsTable s.memories
    → IsTable ((tombstone_forget env id s).1).memories
unfolding tombstone_forget
tombstone_forget-IsTable env id s t = elim (Option-cases (get_memory id s.memories)) [
  | inl missing ↦ rw (missing, tombstone_forget) t
  | inr (row, found) ↦ rw (found, tombstone_forget) (hard_delete-IsTable id _ t)
]
