-- ===== src/Ambient/Wakeups.antt =====
-- Wakeups that the routines book for themselves (backend/app/ambient/wakeups.py, and the
-- AmbientWakeup model of backend/app/models/ambient.py). Spans are in microseconds.
pub mod Caps
pub mod Settled
mod Tests
use concierge_agent.Prelude.{
  ℕ, ◌+◌, ◌-◌, String, Bool, true, false, not, ◌&&◌, Option, none, some, List, [], ◌∷◌, map, min,
  max, leb, if◌then◌else◌, ◌==◌, nat_eq, string_eq, option_eq, count_where, select, find_where,
  any_where,
}
use concierge_agent.Prelude.Clock.{Instant, seconds, hours, midnight}
use concierge_agent.Ambient.Events.{
  Uuid, Events, Emission, EmitError, Env, Outcome, raised, deduped, stored, is_chain_guard,
  has_ended, emit_event,
}

abbrev pub wakeup_max_pending : ℕ
wakeup_max_pending = 5

pub record AmbientWakeup : Type 0 where
  pub id : Uuid
  pub routine_id : Option Uuid
  pub run_id : Option Uuid
  pub due_at : Instant
  pub reason : String
  pub payload : Option String
  pub created_by : String
  pub status : String
  pub created_at : Instant
  pub fired_at : Option Instant

abbrev pub Wakeups : Type 0
Wakeups = List AmbientWakeup

-- `delay_s` or `at`. A delay below zero and an instant in the past clamp as zero does.
pub data When : Type 0 where
  default : When
  delay_s : ℕ → When
  at : Instant → When

-- The keyword arguments of `schedule_wakeup`.
pub record Request : Type 0 where
  pub when : When
  pub reason : String
  pub payload : Option String
  pub created_by : String
  pub run_id : Option Uuid

abbrev delay : When → Instant → ℕ
delay default now = seconds 60
delay (delay_s n) now = seconds n
delay (at due) now = due - now

-- now + min(max(delay, WAKEUP_MIN_DELAY_S), WAKEUP_MAX_DELAY_S)
unfoldable pub due_at : When → Instant → Instant
due_at w now = now + min (max (delay w now) (seconds 60)) (hours 24)

abbrev pub is_pending : Uuid → AmbientWakeup → Bool
is_pending routine w = w.routine_id == some routine && w.status == "pending"

abbrev pub pending : Uuid → Wakeups → ℕ
pending routine table = count_where (is_pending routine) table

abbrev pub booked_today : Uuid → Instant → Wakeups → ℕ
booked_today routine now table =
    count_where (λ w. w.routine_id == some routine && leb (midnight now) w.created_at) table

pub data Refusal : Type 0 where
  too_many_pending daily_cap_hit : Refusal

pub data Booking : Type 0 where
  refused : Refusal → Booking
  booked : AmbientWakeup → Booking

-- What a call meets: the clocks, a fresh UUID and the setting.
pub record Booker : Type 0 where
  pub now : Instant
  pub db_now : Instant
  pub fresh : Uuid
  pub daily_cap : ℕ

unfoldable pub new_wakeup : Booker → Uuid → Request → AmbientWakeup
new_wakeup env routine r = record {
  id = env.fresh;
  routine_id = some routine;
  run_id = r.run_id;
  due_at = due_at r.when env.now;
  reason = r.reason;
  payload = r.payload;
  created_by = r.created_by;
  status = "pending";
  created_at = env.db_now;
  fired_at = none;
}

unfoldable pub schedule_wakeup : Booker → Uuid → Request → Wakeups → Booking × Wakeups
unfolding new_wakeup due_at
schedule_wakeup env routine r table =
    if leb wakeup_max_pending (pending routine table)
    then (refused too_many_pending, table)
    else if leb env.daily_cap (booked_today routine env.now table)
    then (refused daily_cap_hit, table)
    else (booked (new_wakeup env routine r), new_wakeup env routine r ∷ table)

-- A row whose status is pending, under `row.status = ...`.
abbrev pub settle : Uuid → String → Option Instant → AmbientWakeup → AmbientWakeup
settle id status fired w =
    if w.id == id && w.status == "pending"
    then record w { status = status; fired_at = fired }
    else w

unfoldable pub cancel_wakeup : Uuid → Wakeups → Bool × Wakeups
cancel_wakeup id table = elim (find_where (λ w. w.id == id) table) [
  | none ↦ (false, table)
  | some w ↦
      if w.status == "pending"
      then (true, map (settle id "cancelled" w.fired_at) table)
      else (false, table)
]

pub record Run : Type 0 where
  pub trigger_routine : Option Uuid
  pub status : String
  pub started_at : Instant

-- _superseded
abbrev pub superseded : List Run → Uuid → Instant → Bool
superseded runs routine created_at =
    any_where
      (λ r.
        r.trigger_routine == some routine
        && (r.status == "completed" && leb created_at r.started_at))
      runs

-- What a tick meets: the clock, the runs, and for each wakeup what its emission meets, the text of
-- its dedupe key and that of its payload with the reason.
pub record Ticking : Type 0 where
  pub now : Instant
  pub runs : List Run
  pub emitting : Uuid → Env
  pub key : Uuid → String
  pub payload : AmbientWakeup → String

pub wakeup_emission : Ticking → AmbientWakeup → Emission
wakeup_emission env w = record {
  kind = "agent_wakeup";
  source = "wakeup";
  payload = some (env.payload w);
  dedupe_key = some (env.key w.id);
  routine_id = w.routine_id;
  intent_id = none;
  caused_by = none;
  occurred_at = none;
  require_enabled = true;
}

-- The events fired, the two tables, and the exception that ended the loop, if any.
pub record Firing : Type 0 where
  pub fired : ℕ
  pub wakeups : Wakeups
  pub events : Events
  pub error : Option EmitError

unfoldable pub expire : AmbientWakeup → Firing → Firing
expire w s = record s { wakeups = map (settle w.id "expired" w.fired_at) s.wakeups }

-- What the loop makes of the outcome of `emit_event`.
unfoldable pub settle_outcome : Instant → AmbientWakeup → Firing → Outcome → Firing
unfolding expire
settle_outcome now w s (raised error) =
    if is_chain_guard error then expire w s else record s { error = some error }
settle_outcome now w s deduped = expire w s
settle_outcome now w s (stored e) = record s {
  fired = s.fired + 1;
  wakeups = map (settle w.id "fired" (some now)) s.wakeups;
}

-- wakeup.routine_id is None or await _superseded(wakeup)
unfoldable pub is_stale : Ticking → AmbientWakeup → Bool
is_stale env w = elim w.routine_id [
  | none ↦ true
  | some routine ↦ superseded env.runs routine w.created_at
]

-- The body of the loop.
unfoldable pub fire_wakeup : Ticking → AmbientWakeup → Firing → Firing
unfolding is_stale expire settle_outcome emit_event wakeup_emission
fire_wakeup env w s =
    let result = emit_event (env.emitting w.id) (wakeup_emission env w) s.events in
    if is_stale env w
    then expire w s
    else settle_outcome env.now w (record s { events = result.1 }) result.0

unfoldable pub fire_wakeups : Ticking → List AmbientWakeup → Firing → Firing
unfolding fire_wakeup has_ended
fire_wakeups env [] s = s
fire_wakeups env (w ∷ rest) s = elim (has_ended s.error) [
  | true ↦ s
  | false ↦ fire_wakeups env rest (fire_wakeup env w s)
]

unfoldable pub fire_due_wakeups : Ticking → Wakeups → Events → Firing
unfolding fire_wakeups
fire_due_wakeups env table events =
    fire_wakeups env (select (λ w. w.status == "pending" && leb w.due_at env.now) table)
      (record { fired = 0; wakeups = table; events = events; error = none })
