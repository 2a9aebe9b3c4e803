-- ===== src/Memory/Sound/Replaced.antt =====
-- A row that `supersede` adds is sound, and so is the table in which the old row is closed.
use concierge_agent.Prelude.{
  ℕ, ◌≡◌, refl, sym, ap, subst, ◌∙◌, String, true, false, not, ◌&&◌, none, some, List, [], ◌∷◌, map,
  IsIn, inl, inr, Bool-cases, if-both, ◌==◌, ==_eq, &&-true, string_eq, nat_eq, contains, option_eq,
  any_where, is_nil, some-inj, some-ne,
}
use concierge_agent.Prelude.Clock.{Instant}
use concierge_agent.Memory.Rows.{Uuid, Memory, Store, ids}
use concierge_agent.Memory.Store.{Written, validate, is_machine}
use concierge_agent.Memory.Tombstones.{Env}
use concierge_agent.Memory.Changes.{Revision, replacement, is_open, close, replace_seen}
use concierge_agent.Memory.Sound.{IsRow, IsLinked, IsTable}
use concierge_agent.Memory.Sound.Maps.{map-ids, map-AreDistinctBy, map-All, IsIn-map, map-IsIn}
use concierge_agent.Memory.Sound.Added.{validate-nil, not-false}

close-id : (id by : Uuid) (now until : Instant) (m : Memory) → (close id by now until m).id ≡ m.id
close-id id by now until m =
    if-both (λ (n : Memory). n.id ≡ m.id) (is_open id m) _ m (λ a. refl) (λ b. refl)

close-supersedes :
    (id by : Uuid) (now until : Instant) (m : Memory)
    → (close id by now until m).supersedes ≡ m.supersedes
close-supersedes id by now until m =
    if-both (λ (n : Memory). n.supersedes ≡ m.supersedes) (is_open id m) _ m (λ a. refl) (λ b. refl)

close-IsRow :
    (id by : Uuid) (now until : Instant) (m : Memory) → IsRow m → IsRow (close id by now until m)
close-IsRow id by now until m r =
    if-both IsRow (is_open id m) _ m
      (λ hit. record {
        kind = r.kind;
        scope = r.scope;
        source = r.source;
        stamp = refl;
        origin = r.origin;
      })
      (λ b. r)

-- The row that the guard of the update finds.
found-IsIn :
    (id : Uuid) (rows : List Memory) → any_where (is_open id) rows ≡ true → IsIn id (ids rows)
found-IsIn id [] h = cc
found-IsIn id (m ∷ rows) h = elim (Bool-cases (is_open id m)) [
  | inl hit ↦ inl (sym (==_eq m.id id ((&&-true _ _ hit).0)))
  | inr miss ↦ inr (found-IsIn id rows (rw miss at h))
]

replacement-IsRow :
    (env : Env) (r : Revision) (seen : Memory)
    → IsRow seen
    → (seen.superseded_at == none) ≡ true
    → is_nil (validate seen.kind seen.scope r.source) ≡ true
    → (is_machine r.source && r.run_id == none) ≡ false
    → IsRow (replacement env r seen)
unfolding replacement
replacement-IsRow env r seen sound current known proven =
    let (kind, scope, source) = validate-nil seen.kind seen.scope r.source known in
    record {
      kind = kind;
      scope = scope;
      source = source;
      stamp =
          if-both (λ (s : String). true ≡ not (s == "superseded"))
            (contains seen.status ("active" ∷ "expired" ∷ [])) "active" seen.status (λ a. refl)
            (λ b. sym current ∙ sound.stamp);
      origin = rw proven refl;
    }

module _ (env : Env) (row seen : Memory) (rows : List Memory) where
  abbrev closed : Memory → Memory
  closed = close seen.id row.id env.now row.valid_from

  lift : (i : Uuid) → IsIn i (ids rows) → IsIn i (ids (row ∷ map closed rows))
  lift i at = inr (rw (map-ids closed (close-id seen.id row.id env.now row.valid_from) rows) at)

  new-IsLinked :
      row.supersedes ≡ some seen.id
      → row.superseded_by ≡ none
      → any_where (is_open seen.id) rows ≡ true
      → IsLinked (row ∷ map closed rows) row
  new-IsLinked back fresh hit = record {
    older = λ i e. lift i (
        subst (λ k. IsIn k (ids rows)) (some-inj _ _ (sym back ∙ e)) (found-IsIn seen.id rows hit));
    newer = λ n e. absurd (some-ne n (sym e ∙ fresh));
  }

  link_of :
      (old : Memory)
      → row.supersedes ≡ some seen.id
      → IsIn old rows
      → IsLinked rows old
      → (n : ℕ) → (closed old).superseded_by ≡ some n
      → (r : Memory) × IsIn r (row ∷ map closed rows) × (r.id ≡ n) × (r.supersedes ≡ some old.id)
  link_of old back at linked n = elim (Bool-cases (is_open seen.id old)) [
    | inl hit ↦
        rw hit (λ e.
          (row, inl refl, some-inj _ _ e, rw (==_eq old.id seen.id ((&&-true _ _ hit).0)) back))
    | inr miss ↦ rw miss (λ e.
        let (r, there, name, target) = linked.newer n e in
        (
          closed r,
          inr (IsIn-map closed (close-id seen.id row.id env.now row.valid_from) r rows there),
          close-id seen.id row.id env.now row.valid_from r ∙ name,
          close-supersedes seen.id row.id env.now row.valid_from r ∙ target,
        ))
  ]

  closed-IsLinked :
      (old : Memory)
      → row.supersedes ≡ some seen.id
      → IsIn old rows
      → IsLinked rows old
      → IsLinked (row ∷ map closed rows) (closed old)
  closed-IsLinked old back at linked = record {
    older = λ i e.
        lift i
          (linked.older i (sym (close-supersedes seen.id row.id env.now row.valid_from old) ∙ e));
    newer = λ n e.
        let (r, there, name, target) = link_of old back at linked n e in
        (
          r,
          there,
          name,
          target ∙ ap some (sym (close-id seen.id row.id env.now row.valid_from old)),
        );
  }

  closed-IsTable :
      ¬ IsIn row.id (ids rows)
      → IsRow row
      → row.supersedes ≡ some seen.id
      → row.superseded_by ≡ none
      → any_where (is_open seen.id) rows ≡ true
      → IsTable rows
      → IsTable (row ∷ map closed rows)
  closed-IsTable fresh sound back current hit t =
      let same = close-id seen.id row.id env.now row.valid_from in
      record {
        distinct = (
          λ at. fresh (rw (map-ids closed same rows) at at),
          map-AreDistinctBy closed same rows t.distinct,
        );
        each = (
          sound,
          map-All closed same rows (close-IsRow seen.id row.id env.now row.valid_from) t.each,
        );
        linked = λ m at. elim at [
          | inl e ↦ rw e (new-IsLinked back current hit)
          | inr there ↦
              let (old, was, e) = map-IsIn closed same m rows there in
              rw e (closed-IsLinked old back was (t.linked old was))
        ];
      }

-- `seen` may be older than the table.
pub replace_seen-IsTable :
    (env : Env) (r : Revision) (seen : Memory) (s : Store)
    → IsRow seen
    → ¬ IsIn env.fresh (ids s.memories)
    → IsTable s.memories
    → IsTable ((replace_seen env r seen s).1).memories
unfolding replace_seen replacement
replace_seen-IsTable env r seen s sound fresh t =
    let P = λ (o : Written × Store). IsTable o.1.memories in
    if-both P (not (seen.superseded_at == none)) _ _ (λ a. t)
      (λ current.
        if-both P (not (is_nil (validate seen.kind seen.scope r.source))) _ _ (λ a. t)
          (λ known.
            if-both P (is_machine r.source && r.run_id == none) _ _ (λ a. t)
              (λ proven.
                if-both P (not (any_where (is_open seen.id) s.memories)) _ _ (λ a. t)
                  (λ hit.
                    closed-IsTable env (replacement env r seen) seen s.memories fresh
                      (replacement-IsRow env r seen sound (not-false _ current) (not-false _ known)
                        proven)
                      refl refl (not-false _ hit) t))))
