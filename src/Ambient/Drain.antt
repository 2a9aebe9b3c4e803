-- ===== src/Ambient/Drain.antt =====
-- The drain (drain_once of backend/app/ambient/drain.py): claim a batch, process each event with no
-- lock held, write the verdict back.
pub mod Claims
mod Tests
use concierge_agent.Prelude.{
  ℕ, zero, suc, ◌+◌, String, Bool, true, false, not, ◌&&◌, ◌||◌, Option, none, some, List, [], ◌∷◌,
  ◌++◌, map, if◌then◌else◌, leb, ltb, ◌==◌, nat_eq, string_eq, option_eq, contains, select,
  find_where,
}
use concierge_agent.Prelude.Clock.{Instant, seconds}
use concierge_agent.Ambient.Events.{Uuid}
use concierge_agent.Ambient.Deliver.Outbox.{insert_ordered, order_by}

-- The detail of a decision: a text, and whether it names whom it fired for.
pub record Decision : Type 0 where
  pub text : String
  pub fired_for : Bool

-- The columns of an event that the drain reads or writes.
pub record Row : Type 0 where
  pub id : Uuid
  pub received_at : Instant
  pub verdict : Option String
  pub verdict_reason : Option String
  pub decision : Option Decision
  pub processed_at : Option Instant

abbrev pub reclaim_after_s : ℕ
reclaim_after_s = 600

-- processed_at <= :reclaim; a null is not
abbrev is_stale : Instant → Option Instant → Bool
is_stale now none = false
is_stale now (some at) = leb (at + seconds reclaim_after_s) now

unfoldable pub is_claimable : Instant → Row → Bool
is_claimable now row =
    row.verdict == none || (row.verdict == some "processing" && is_stale now row.processed_at)

abbrev pub first : ℕ → List Row → List Row
first zero rows = []
first (suc n) [] = []
first (suc n) (row ∷ rest) = row ∷ first n rest

-- SELECT id ... ORDER BY received_at LIMIT :n
unfoldable pub claimed_ids : Instant → ℕ → List Row → List Uuid
unfolding is_claimable
claimed_ids now limit table =
    map (λ (r : Row). r.id)
      (first limit (
        order_by (λ (p : Row) (q : Row). not (ltb q.received_at p.received_at))
          (select (is_claimable now) table)))

-- UPDATE ... SET verdict = 'processing', processed_at = :now WHERE id = ANY(:ids)
unfoldable pub mark_claimed : Instant → List Uuid → List Row → List Row
mark_claimed now ids table =
    map
      (λ (r : Row).
        if contains r.id ids
        then record r { verdict = some "processing"; processed_at = some now }
        else r)
      table

-- The first phase: the ids, and the table.
unfoldable pub claim : Instant → ℕ → List Row → List Uuid × List Row
unfolding claimed_ids mark_claimed
claim now limit table = let ids = claimed_ids now limit table in (ids, mark_claimed now ids table)

-- What a processor returns: a verdict, a reason, and a decision if there are three.
pub record Outcome : Type 0 where
  pub verdict : String
  pub reason : String
  pub decision : Option Decision

-- What a drain meets: whether a processor is registered, its answer (`none`: it raised, with the text),
-- and the clock when the event is written back.
pub record Draining : Type 0 where
  pub is_registered : Bool
  pub answer : Row → Option (Option Outcome)
  pub error : Row → String
  pub now : Uuid → Instant

unfoldable pub outcome_of : Draining → Row → Option Outcome
outcome_of env row = if not env.is_registered then none else elim (env.answer row) [
  | none ↦ some (record { verdict = "held"; reason = env.error row; decision = none })
  | some result ↦ result
]

unfoldable pub write_row : Instant → Option Outcome → Row → Row
write_row now none r = record r { verdict = none; processed_at = none }
write_row now (some o) r = elim o.decision [
  | none ↦ record r {
    verdict = some o.verdict;
    verdict_reason = some o.reason;
    processed_at = some now;
  }
  | some d ↦ record r {
    verdict = some o.verdict;
    verdict_reason = some o.reason;
    decision = some d;
    processed_at = some now;
  }
]

unfoldable pub write_back : Instant → Uuid → Option Outcome → List Row → List Row
unfolding write_row
write_back now id o table = map (λ (r : Row). if r.id == id then write_row now o r else r) table

abbrev pub is_fired : Outcome → Bool
is_fired o = o.verdict == "fired" && elim o.decision [ none ↦ false | some d ↦ d.fired_for ]

-- The table, the events handled, and those to execute.
pub record Drained : Type 0 where
  pub table : List Row
  pub handled : ℕ
  pub to_execute : List Uuid

-- One round of the second and third phase.
unfoldable pub drain_event : Draining → Uuid → Drained → Drained
unfolding outcome_of write_back
drain_event env id s = elim (find_where (λ (r : Row). r.id == id) s.table) [
  | none ↦ s
  | some row ↦
      let o = outcome_of env row in
      let table = write_back (env.now id) id o s.table in
      elim o [
        | none ↦ record s { table = table }
        | some out ↦ record {
          table = table;
          handled = suc s.handled;
          to_execute = if is_fired out then s.to_execute ++ (id ∷ []) else s.to_execute;
        }
      ]
]

unfoldable pub drain_events : Draining → List Uuid → Drained → Drained
unfolding drain_event
drain_events env [] s = s
drain_events env (id ∷ rest) s = drain_events env rest (drain_event env id s)

unfoldable pub drain_once : Draining → Instant → ℕ → List Row → Drained
unfolding claim drain_events
drain_once env now limit table =
    let (ids, claimed) = claim now limit table in
    drain_events env ids (record { table = claimed; handled = 0; to_execute = [] })
