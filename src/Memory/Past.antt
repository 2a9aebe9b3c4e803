-- ===== src/Memory/Past.antt =====
-- What was believed at a time (_temporal_predicate of backend/app/memory/rank.py).
use concierge_agent.Prelude.{
  ℕ, ◌<◌, ◌≡◌, refl, ◌∙◌, Bool, true, false, not, ◌&&◌, Option, none, some, List, [], ◌∷◌, map, inl,
  inr, IsIn, ltb, leb, if-both, Bool-cases, ◌==◌, ==_eq, &&-true, nat_eq, string_eq, option_eq,
  contains, select, any_where, is_nil, arith,
}
use concierge_agent.Prelude.Clock.{Instant}
use concierge_agent.Memory.Rows.{Uuid, Memory, Store, ids}
use concierge_agent.Memory.Store.{Written, validate, is_machine}
use concierge_agent.Memory.Tombstones.{Env}
use concierge_agent.Memory.Changes.{Revision, replacement, is_open, close, replace_seen}

-- x IS NULL OR x > :as_of
abbrev pub is_after : Instant → Option Instant → Bool
is_after as_of none = true
is_after as_of (some at) = ltb as_of at

abbrev pub is_hidden : Memory → Bool
is_hidden m = contains m.status ("quarantined" ∷ "rejected" ∷ [])

-- The rows that are active now, or that were believed at a time about facts valid then.
unfoldable pub is_believed : Option Instant → Memory → Bool
is_believed none m = m.status == "active"
is_believed (some as_of) m =
    not (is_hidden m)
    && leb m.recorded_at as_of
    && is_after as_of m.superseded_at
    && leb m.valid_from as_of
    && is_after as_of m.valid_to

unfoldable pub believed : Instant → List Memory → List Uuid
unfolding is_believed
believed as_of rows = ids (select (is_believed (some as_of)) rows)

-- A row that is shown and has no end.
abbrev pub IsShown : Memory → Type 0
IsShown m = (is_hidden m ≡ false) × (m.valid_to ≡ none)

and-false : (a b c d : Bool) → (a && false && b && c && d) ≡ false
and-false true b c d = refl
and-false false b c d = refl

lt-ltb : (a b : ℕ) → a < b → ltb a b ≡ true
lt-ltb a b h = ground arith

lt-leb : (a b : ℕ) → a < b → leb b a ≡ false
lt-leb a b h = ground arith

close-is_believed :
    (id by : Uuid) (now as_of : Instant) (m : Memory)
    → as_of < now
    → (is_open id m ≡ true → IsShown m)
    → is_believed (some as_of) (close id by now now m) ≡ is_believed (some as_of) m
unfolding is_believed
close-is_believed id by now as_of m past shown = elim (Bool-cases (is_open id m)) [
  | inr other ↦ rw other refl
  | inl hit ↦
      let (visible, endless) = shown hit in
      let free = ==_eq m.superseded_at none ((&&-true (m.id == id) _ hit).1) in
      rw (hit, visible, endless, free, lt-ltb as_of now past) refl
]

-- A row that is recorded later is not believed.
later-is_believed :
    (as_of : Instant) (m : Memory) → as_of < m.recorded_at → is_believed (some as_of) m ≡ false
unfolding is_believed
later-is_believed as_of m late = rw (lt-leb as_of m.recorded_at late) (and-false _ _ _ _)

map-believed :
    (f : Memory → Memory) (as_of : Instant) (rows : List Memory)
    → ((m : Memory) → (f m).id ≡ m.id)
    → ((m : Memory) → IsIn m rows → is_believed (some as_of) (f m) ≡ is_believed (some as_of) m)
    → believed as_of (map f rows) ≡ believed as_of rows
unfolding believed
map-believed f as_of [] same h = refl
map-believed f as_of (m ∷ rows) same h =
    let rest = map-believed f as_of rows same (λ n at. h n (inr at)) in
    elim (Bool-cases (is_believed (some as_of) m)) [
      | inl shown ↦ rw (h m (inl refl), shown, same m, rest) refl
      | inr hidden ↦ rw (h m (inl refl), hidden, rest) refl
    ]

cons-believed :
    (as_of : Instant) (row : Memory) (rows : List Memory)
    → as_of < row.recorded_at
    → believed as_of (row ∷ rows) ≡ believed as_of rows
unfolding believed
cons-believed as_of row rows late = rw (later-is_believed as_of row late) refl

-- The rows after a replacement that gives no other start.
replaced-believed :
    (env : Env) (row seen : Memory) (rows : List Memory) (as_of : Instant)
    → as_of < env.now
    → as_of < row.recorded_at
    → row.valid_from ≡ env.now
    → ((m : Memory) → IsIn m rows → is_open seen.id m ≡ true → IsShown m)
    → believed as_of (row ∷ map (close seen.id row.id env.now row.valid_from) rows)
      ≡ believed as_of rows
replaced-believed env row seen rows as_of past unrecorded start shown =
    cons-believed as_of row _ unrecorded
    ∙ rw start (
        map-believed (close seen.id row.id env.now env.now) as_of rows
          (λ m.
            if-both (λ (n : Memory). n.id ≡ m.id) (is_open seen.id m) _ m (λ a. refl) (λ a. refl))
          (λ m at. close-is_believed seen.id row.id env.now as_of m past (shown m at)))

-- What was believed at a time before a replacement is what it was, if the row that is replaced was
-- not hidden and had no end, and the call gives no other start: the history is not rewritten.
pub supersede_keeps_past :
    (env : Env) (r : Revision) (seen : Memory) (s : Store) (as_of : Instant)
    → as_of < env.now
    → as_of < env.db_now
    → r.valid_from ≡ none
    → ((m : Memory) → IsIn m s.memories → is_open seen.id m ≡ true → IsShown m)
    → believed as_of ((replace_seen env r seen s).1).memories ≡ believed as_of s.memories
unfolding replace_seen replacement
supersede_keeps_past env r seen s as_of past unrecorded start shown =
    let P = λ (o : Written × Store). believed as_of o.1.memories ≡ believed as_of s.memories in
    let row = replacement env r seen in
    if-both P (not (seen.superseded_at == none)) _ _ (λ a. refl)
      (λ b.
        if-both P (not (is_nil (validate seen.kind seen.scope r.source))) _ _ (λ a. refl)
          (λ c.
            if-both P (is_machine r.source && r.run_id == none) _ _ (λ a. refl)
              (λ d.
                if-both P (not (any_where (is_open seen.id) s.memories)) _ _ (λ a. refl)
                  (λ e.
                    replaced-believed env row seen s.memories as_of past unrecorded (rw start refl)
                      shown))))
