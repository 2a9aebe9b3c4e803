-- ===== src/Ambient/Triggers/Schedules.antt =====
-- Schedules (backend/app/ambient/triggers.py, and the Routine model of
-- backend/app/models/ambient.py). Instants and spans are in microseconds.
pub mod Fired
use concierge_agent.Prelude.{
  ℕ, zero, suc, ◌+◌, ◌-◌, String, Bool, true, false, not, ◌&&◌, Option, none, some, List, [], ◌∷◌,
  map, max, leb, if◌then◌else◌, ◌==◌, nat_eq, string_eq, select,
}
use concierge_agent.Prelude.Clock.{Instant, seconds, hours}
use concierge_agent.Ambient.Events.{
  Uuid, Events, Emission, Env, Outcome, raised, deduped, stored, is_chain_guard, emit_event,
}

-- A trigger of a routine. `once none` holds a text that `fromisoformat` rejects.
pub data Trigger : Type 0 where
  interval : Option ℕ → Trigger
  once : Option Instant → Trigger
  cron : String → Trigger
  other : String → Trigger

pub record Routine : Type 0 where
  pub id : Uuid
  pub status : String
  pub status_reason : Option String
  pub triggers : List Trigger
  pub last_fired_at : Option Instant
  pub stagger_offset_s : ℕ
  pub consecutive_failures : ℕ

-- croniter: is_valid, and get_next from a base.
pub record Croniter : Type 0 where
  pub is_valid : String → Bool
  pub get_next : String → Instant → Instant

abbrev or_default : Option ℕ → ℕ → ℕ
or_default none d = d
or_default (some n) d = n

-- _schedule_due; `none` is the ValueError.
unfoldable pub schedule_due : Croniter → Trigger → Option Instant → ℕ → Instant → Option Bool
schedule_due cal (interval span) none stagger now = some true
schedule_due cal (interval span) (some last) stagger now =
    some (leb (last + seconds (max (or_default span 3600) 60)) now)
schedule_due cal (once none) last stagger now = none
schedule_due cal (once (some at)) none stagger now = some (leb (at + seconds stagger) now)
schedule_due cal (once (some at)) (some last) stagger now = some false
schedule_due cal (cron expr) last stagger now =
    if not (cal.is_valid expr)
    then some false
    else some (leb (cal.get_next expr (or_default last (now - hours 24)) + seconds stagger) now)
schedule_due cal (other type) last stagger now = some false

abbrev pub is_scheduled : Trigger → Bool
is_scheduled (other type) = false
is_scheduled _ = true

abbrev pub quarantine_after : ℕ
quarantine_after = 3

-- What a pass meets: the clock, the calendar, and for a routine and the index of a trigger what the
-- emission meets, the text of its dedupe key and that of its payload; for a routine
-- the sanitized text of the exception that its evaluation raises.
pub record Ticking : Type 0 where
  pub now : Instant
  pub calendar : Croniter
  pub emitting : Uuid → ℕ → Env
  pub key : Uuid → ℕ → String
  pub payload : Trigger → ℕ → String
  pub failure : Uuid → String

pub record Tables : Type 0 where
  pub routines : List Routine
  pub events : Events

-- `session.get(Routine, id)` and a change of the row.
unfoldable pub change : Uuid → (Routine → Routine) → List Routine → List Routine
change id f rows = map (λ (r : Routine). if r.id == id then f r else r) rows

-- trigs[i] = t
unfoldable pub set_trigger : ℕ → Trigger → List Trigger → List Trigger
set_trigger i t [] = []
set_trigger zero t (x ∷ xs) = t ∷ xs
set_trigger (suc i) t (x ∷ xs) = x ∷ set_trigger i t xs

-- What a firing writes to the row.
unfoldable pub mark_fired : Instant → ℕ → Trigger → Routine → Routine
unfolding set_trigger
mark_fired now i (once at) r = record r {
  last_fired_at = some now;
  triggers = set_trigger i (other "once_fired") r.triggers;
}
mark_fired now i t r = record r { last_fired_at = some now }

pub schedule_emission : Ticking → Uuid → ℕ → Trigger → Emission
schedule_emission env routine i t = record {
  kind = "routine_schedule";
  source = "schedule";
  payload = some (env.payload t i);
  dedupe_key = some (env.key routine i);
  routine_id = some routine;
  intent_id = none;
  caused_by = none;
  occurred_at = none;
  require_enabled = true;
}

-- The tables, the events fired, and whether an exception ended the evaluation.
pub record Pass : Type 0 where
  pub tables : Tables
  pub fired : ℕ
  pub raises : Bool

-- What follows the emission for a due trigger.
unfoldable pub settle : Ticking → Uuid → ℕ → Trigger → Tables → Outcome → Pass
unfolding change mark_fired
settle env id i t db (raised error) = record {
  tables = db;
  fired = 0;
  raises = not (is_chain_guard error);
}
settle env id i t db deduped = record { tables = db; fired = 0; raises = false }
settle env id i t db (stored e) = record {
  tables = record db { routines = change id (mark_fired env.now i t) db.routines };
  fired = 1;
  raises = false;
}

unfoldable pub fire_trigger : Ticking → Uuid → ℕ → Trigger → Tables → Pass
unfolding settle emit_event schedule_emission
fire_trigger env id i t db =
    let result = emit_event (env.emitting id i) (schedule_emission env id i t) db.events in
    settle env id i t (record db { events = result.1 }) result.0

-- One round of the loop of `_evaluate_routine_schedules`.
unfoldable pub evaluate_trigger : Ticking → Routine → ℕ → Trigger → Tables → Pass
unfolding schedule_due fire_trigger
evaluate_trigger env r i t db =
    if not (is_scheduled t)
    then record { tables = db; fired = 0; raises = false }
    else elim (schedule_due env.calendar t r.last_fired_at r.stagger_offset_s env.now) [
      | none ↦ record { tables = db; fired = 0; raises = true }
      | some due ↦
          if due
          then fire_trigger env r.id i t db
          else record { tables = db; fired = 0; raises = false }
    ]

unfoldable pub evaluate_triggers : Ticking → Routine → ℕ → List Trigger → Tables → Pass
unfolding evaluate_trigger
evaluate_triggers env r i [] db = record { tables = db; fired = 0; raises = false }
evaluate_triggers env r i (t ∷ rest) db =
    let one = evaluate_trigger env r i t db in
    let more = evaluate_triggers env r (suc i) rest one.tables in
    elim one.raises [ true ↦ one | false ↦ record more { fired = one.fired + more.fired } ]

-- _record_trigger_failure
unfoldable pub record_failure : String → Routine → Routine
record_failure reason r =
    let failures = suc r.consecutive_failures in
    if leb quarantine_after failures
    then record r { consecutive_failures = failures; status = "error"; status_reason = some reason }
    else record r { consecutive_failures = failures }

-- One round of the loop of `evaluate_schedules`: an exception loses the count of its routine.
unfoldable pub evaluate_routine : Ticking → Routine → Tables → ℕ × Tables
unfolding evaluate_triggers record_failure change
evaluate_routine env r db =
    let pass = evaluate_triggers env r 0 r.triggers db in
    elim pass.raises [
      | false ↦ (pass.fired, pass.tables)
      | true ↦ (
        0,
        record pass.tables {
          routines = change r.id (record_failure (env.failure r.id)) pass.tables.routines;
        },
      )
    ]

unfoldable pub evaluate_routines : Ticking → List Routine → Tables → ℕ × Tables
unfolding evaluate_routine
evaluate_routines env [] db = (0, db)
evaluate_routines env (r ∷ rest) db =
    let (fired, db1) = evaluate_routine env r db in
    let (more, db2) = evaluate_routines env rest db1 in (fired + more, db2)

unfoldable pub evaluate_schedules : Ticking → Tables → ℕ × Tables
unfolding evaluate_routines
evaluate_schedules env db =
    evaluate_routines env (select (λ (r : Routine). r.status == "active") db.routines) db
