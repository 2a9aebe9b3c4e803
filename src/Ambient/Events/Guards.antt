-- ===== src/Ambient/Events/Guards.antt =====
-- The dedupe keys and the kill switch of the event store (backend/app/ambient/store.py).
use concierge_agent.Prelude.{
  ℕ, ◌+◌, ◌-◌, ◌≤◌, ◌<◌, ◌≡◌, ◌≢◌, inl, inr, String, false, ◌&&◌, some, [], ◌∷◌, arith, All,
  Bool-cases, leb, count_where, any_where, ◌==◌, nat_eq, string_eq, option_eq, ==_eq, ==_ne,
  &&-true, leb→le, of_then, of_else, sym, ap, subst, eq_iff,
}
use mathlib.Core.Bool.{false≢true}
use concierge_agent.Prelude.Clock.{Instant, hours}
use concierge_agent.Ambient.Events.{
  Uuid, AmbientEvent, Events, Emission, Env, stored, is_duplicate, kill_switch, recent_events,
  rule_kill_switch_per_hour, new_event, emit_event,
}
use concierge_agent.Ambient.Events.Cases.{emit_event_cases}

-- No two rows share a dedupe key, the empty one apart.
abbrev pub HasUniqueKeys : Events → Type 0
HasUniqueKeys [] = Unit
HasUniqueKeys (e ∷ older) =
    ((key : String) → e.dedupe_key ≡ some key → key ≢ "" → All (λ f. f.dedupe_key ≢ some key) older)
    × HasUniqueKeys older

any_where-All :
    (key : String) (older : Events)
    → any_where (λ e. e.dedupe_key == some key) older ≡ false
    → All (λ f. f.dedupe_key ≢ some key) older
any_where-All key [] h = tt
any_where-All key (e ∷ older) h = elim (Bool-cases (e.dedupe_key == some key)) [
  | inl hit ↦ absurd (false≢true (sym (of_then _ hit h)))
  | inr miss ↦ (==_ne e.dedupe_key (some key) miss, any_where-All key older (of_else _ miss h))
]

is_duplicate-All :
    (older : Events) (key : String)
    → is_duplicate older (some key) ≡ false
    → key ≢ ""
    → All (λ f. f.dedupe_key ≢ some key) older
unfolding is_duplicate
is_duplicate-All older key h named = any_where-All key older (ground (arith, eq_iff key ""))

-- The events of a routine that were received from `since` to `until`.
abbrev pub events_between : Events → Uuid → Instant → Instant → ℕ
events_between table routine since until =
    count_where
      (λ e. e.routine_id == some routine && (leb since e.received_at && leb e.received_at until))
      table

-- No stretch of `span` holds more than fifty events of one routine.
abbrev pub IsThrottled : ℕ → Events → Type 0
IsThrottled span table =
    (routine : Uuid) (since : Instant)
    → events_between table routine since (since + span) ≤ rule_kill_switch_per_hour

events_between-le_recent :
    (table : Events) (routine : Uuid) (since until start : Instant)
    → start ≤ since
    → events_between table routine since until ≤ recent_events table routine start
events_between-le_recent [] routine since until start h = omega arith
events_between-le_recent (e ∷ older) routine since until start h =
    ground (arith, events_between-le_recent older routine since until start h)

-- Whatever is emitted, a dedupe key keeps one row at most, if it had one at most before.
pub emit_event-HasUniqueKeys :
    (env : Env) (a : Emission) (table : Events)
    → HasUniqueKeys table
    → HasUniqueKeys (emit_event env a table).1
unfolding new_event
emit_event-HasUniqueKeys env a table h = elim (emit_event_cases env a table) [
  | inl kept ↦ rw kept.0 h
  | inr (e, ok) ↦ rw e (
    λ key p named.
        is_duplicate-All table key (subst (λ k. is_duplicate table k ≡ false) p ok.unique) named,
    h,
  )
]

-- A count grows by a row only if the row is counted.
events_between-cons :
    (e : AmbientEvent) (older : Events) (routine : Uuid) (since until : Instant)
    → events_between older routine since until ≤ rule_kill_switch_per_hour
    → (e.routine_id ≡ some routine
        → e.received_at ≤ until
        → events_between older routine since until < rule_kill_switch_per_hour)
    → events_between (e ∷ older) routine since until ≤ rule_kill_switch_per_hour
events_between-cons e older routine since until h room =
    elim (Bool-cases (e.routine_id == some routine)) [
      | inr other ↦ rw other h
      | inl same ↦ elim (Bool-cases (leb since e.received_at && leb e.received_at until)) [
        | inr out ↦ rw (same, out) h
        | inl inside ↦
            rw (same, inside)
              (room (==_eq e.routine_id (some routine) same)
                (leb→le e.received_at until (&&-true (leb since e.received_at) _ inside).1))
      ]
    ]

kill_switch-lt :
    (table : Events) (routine : Uuid) (now : Instant)
    → kill_switch table (some routine) now ≡ false
    → recent_events table routine (now - hours 1) < rule_kill_switch_per_hour
unfolding kill_switch
kill_switch-lt table routine now h = ground arith

-- Where the time of the row, which is that of the transaction, may be behind the process's clock by
-- up to `lag`, no stretch that is `lag` short of an hour comes to hold more than fifty events of one
-- routine, whatever is emitted, if none did.
pub emit_event-IsThrottled :
    (span lag : ℕ) (env : Env) (a : Emission) (table : Events)
    → span + lag ≤ hours 1
    → env.now ≤ env.db_now + lag
    → IsThrottled span table
    → IsThrottled span (emit_event env a table).1
unfolding new_event
emit_event-IsThrottled span lag env a table short clocks h = elim (emit_event_cases env a table) [
  | inl kept ↦ rw kept.0 h
  | inr (e, ok) ↦ rw e λ routine since.
      events_between-cons (new_event env a) table routine since (since + span) (h routine since)
        (λ named early. omega (
          arith,
          events_between-le_recent table routine since (since + span) (env.now - hours 1)
              (omega (arith, early, short, clocks)),
          kill_switch-lt table routine env.now
              (subst (λ o. kill_switch table o env.now ≡ false) named ok.rate),
        ))
]

-- A call that stores no row leaves the table as it was.
pub emit_event_unchanged :
    (env : Env) (a : Emission) (table : Events)
    → ((e : AmbientEvent) → (emit_event env a table).0 ≢ stored e)
    → (emit_event env a table).1 ≡ table
emit_event_unchanged env a table h = elim (emit_event_cases env a table) [
  | inl kept ↦ kept.0
  | inr (e, ok) ↦ absurd (h (new_event env a) (ap (λ o. o.0) e))
]
