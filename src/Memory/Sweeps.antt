-- ===== src/Memory/Sweeps.antt =====
-- The sweeps over the table (decay_sweep and contradiction_sweep of
-- backend/app/memory/lifecycle.py). `gate` is the switch that each reads first.
pub mod Newest
pub mod Survivors
use concierge_agent.Prelude.{
  ℕ, ◌-◌, suc, Bool, true, false, not, ◌&&◌, ◌||◌, Option, none, some, List, [], ◌∷◌, map, ltb, leb,
  if◌then◌else◌, ◌==◌, nat_eq, string_eq, option_eq, any_where, count_where,
}
use concierge_agent.Prelude.Clock.{Instant}
use concierge_agent.Memory.Rows.{Memory, Store}
use concierge_agent.Memory.Store.{first_of, or_else}

-- COALESCE(NULLIF(half_life_days, 0), :hl)
half_life_of : ℕ → Option ℕ → ℕ
half_life_of default none = default
half_life_of default (some span) = if span == 0 then default else span

-- `is_faint` stands for the float test of the statement: an importance that is halved once in each
-- half life is below 1 at an age.
unfoldable pub is_decayed : (is_faint : ℕ → ℕ → ℕ → Bool) → ℕ → Instant → Memory → Bool
unfolding half_life_of
is_decayed is_faint default now m =
    m.status == "active"
    && not m.pinned
    && is_faint m.importance (half_life_of default m.half_life_days) (now - m.last_accessed_at)

abbrev pub expire : (Memory → Bool) → Instant → Memory → Memory
expire p now m =
    if p m then record m { status = "expired"; valid_to = first_of m.valid_to (some now) } else m

unfoldable pub decay_sweep : (ℕ → ℕ → ℕ → Bool) → ℕ → Bool → Instant → Store → ℕ × Store
unfolding is_decayed
decay_sweep is_faint default gate now store =
    let old = is_decayed is_faint default now in
    if gate
    then (
      count_where old store.memories,
      record store { memories = map (expire old now) store.memories },
    )
    else (0, store)

-- status = 'active' AND entity_key IS NOT NULL
abbrev pub is_contested : Memory → Bool
is_contested m = m.status == "active" && not (m.entity_key == none)

-- PARTITION BY scope, entity_key
abbrev pub is_rival : Memory → Memory → Bool
is_rival r m = is_contested r && r.scope == m.scope && r.entity_key == m.entity_key

-- ORDER BY valid_from DESC, recorded_at DESC
abbrev pub is_newer : Memory → Memory → Bool
is_newer r m =
    ltb m.valid_from r.valid_from || r.valid_from == m.valid_from && ltb m.recorded_at r.recorded_at

-- row_number() > 1, where the rows that tie count in the order of the table
unfoldable pub is_outranked : List Memory → List Memory → Memory → Bool
is_outranked before after m =
    any_where (λ r. is_rival r m && not (is_newer m r)) before
    || any_where (λ r. is_rival r m && is_newer r m) after

abbrev pub quarantine : Memory → Memory
quarantine m = record m {
  status = "quarantined";
  review_note = some "contradiction sweep: older duplicate of an active entity_key";
}

unfoldable pub resolve : List Memory → List Memory → Memory → Memory
unfolding is_outranked
resolve before after m = if is_contested m && is_outranked before after m then quarantine m else m

unfoldable pub resolve_rows : List Memory → List Memory → List Memory
unfolding resolve
resolve_rows before [] = []
resolve_rows before (m ∷ after) = resolve before after m ∷ resolve_rows (m ∷ before) after

unfoldable pub count_outranked : List Memory → List Memory → ℕ
unfolding is_outranked
count_outranked before [] = 0
count_outranked before (m ∷ after) =
    let rest = count_outranked (m ∷ before) after in
    if is_contested m && is_outranked before after m then suc rest else rest

unfoldable pub contradiction_sweep : Bool → Store → ℕ × Store
unfolding resolve_rows count_outranked
contradiction_sweep gate store =
    if gate
    then (
      count_outranked [] store.memories,
      record store { memories = resolve_rows [] store.memories },
    )
    else (0, store)
