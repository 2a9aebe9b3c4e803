-- ===== src/Ambient/Events.antt =====
-- The ambient event store (backend/app/ambient/store.py and the AmbientEvent model of
-- backend/app/models/ambient.py): an append-only table, and the cascade guards at write time.
-- A payload is a text that the store never reads.
pub mod Cases
mod Tests
pub mod Lineage
pub mod Guards
use concierge_agent.Prelude.{
  ℕ, zero, suc, ◌+◌, ◌-◌, String, Bool, true, false, not, ◌&&◌, Option, none, some, List, [], ◌∷◌,
  leb, if◌then◌else◌, ◌==◌, nat_eq, string_eq, option_eq, contains, count_where, any_where,
  find_where,
}
use concierge_agent.Prelude.Clock.{Instant, hours}

-- A UUID is the number that it stands for.
abbrev pub Uuid : Type 0
Uuid = ℕ

abbrev pub event_sources : List String
event_sources =
    "schedule" ∷ "webhook" ∷ "poll" ∷ "internal" ∷ "wakeup" ∷ "presence" ∷ "pattern" ∷ "manual" ∷ []

-- source in EVENT_SOURCES
unfoldable pub is_event_source : String → Bool
is_event_source source = contains source event_sources

abbrev pub max_depth : ℕ
max_depth = 4

abbrev pub rule_kill_switch_per_hour : ℕ
rule_kill_switch_per_hour = 50

pub record AmbientEvent : Type 0 where
  pub id : Uuid
  pub kind : String
  pub source : String
  pub payload : Option String
  pub dedupe_key : Option String
  pub routine_id : Option Uuid
  pub intent_id : Option Uuid
  pub causation_id : Option Uuid
  pub correlation_id : Option Uuid
  pub depth : ℕ
  pub occurred_at : Instant
  pub received_at : Instant
  pub verdict : Option String

-- The rows of the table, the newest first.
abbrev pub Events : Type 0
Events = List AmbientEvent

pub data EmitError : Type 0 where
  unknown_source ambient_disabled : EmitError
  depth_guard self_trigger_guard kill_switch_guard : EmitError

-- The two exceptions apart from ChainGuardError are not of that class.
abbrev pub is_chain_guard : EmitError → Bool
is_chain_guard unknown_source = false
is_chain_guard ambient_disabled = false
is_chain_guard _ = true

-- A loop was ended by an exception.
unfoldable pub has_ended : Option EmitError → Bool
has_ended none = false
has_ended (some error) = true

-- The keyword arguments of `emit_event`.
pub record Emission : Type 0 where
  pub kind : String
  pub source : String
  pub payload : Option String
  pub dedupe_key : Option String
  pub routine_id : Option Uuid
  pub intent_id : Option Uuid
  pub caused_by : Option AmbientEvent
  pub occurred_at : Option Instant
  pub require_enabled : Bool

-- What a call meets: the setting, the process's clock, now() of the database, which is the start of
-- the transaction, and a fresh UUID.
pub record Env : Type 0 where
  pub ambient_enabled : Bool
  pub now : Instant
  pub db_now : Instant
  pub fresh : Uuid

-- An exception, or the new row if any; and the table after the call.
pub data Outcome : Type 0 where
  raised : EmitError → Outcome
  deduped : Outcome
  stored : AmbientEvent → Outcome

-- session.get(AmbientEvent, id)
abbrev pub get_event : Events → Uuid → Option AmbientEvent
get_event table id = find_where (λ e. e.id == id) table

-- The loop of `_routine_in_chain`, on the rounds left.
pub routine_in_chain_from : ℕ → Events → Option AmbientEvent → Uuid → Bool
routine_in_chain_from zero table current routine = false
routine_in_chain_from (suc rounds) table none routine = false
routine_in_chain_from (suc rounds) table (some e) routine = elim (e.routine_id == some routine) [
  | true ↦ true
  | false ↦ elim e.causation_id [
    | none ↦ false
    | some cause ↦ routine_in_chain_from rounds table (get_event table cause) routine
  ]
]

pub routine_in_chain : Events → AmbientEvent → Uuid → Bool
unfolding routine_in_chain_from
routine_in_chain table event routine =
    routine_in_chain_from (max_depth + 1) table (some event) routine

-- depth, causation_id, correlation_id
pub record Provenance : Type 0 where
  pub depth : ℕ
  pub causation_id : Option Uuid
  pub correlation_id : Option Uuid

abbrev pub or_else : Option Uuid → Uuid → Option Uuid
or_else none d = some d
or_else (some a) d = some a

pub provenance : Option AmbientEvent → Provenance
provenance none = record { depth = 0; causation_id = none; correlation_id = none }
provenance (some cause) = record {
  depth = cause.depth + 1;
  causation_id = some cause.id;
  correlation_id = or_else cause.correlation_id cause.id;
}

-- The guards of a derived event.
pub chain_guards : Events → Option AmbientEvent → Option Uuid → Option EmitError
chain_guards table none routine = none
chain_guards table (some cause) routine =
    if leb max_depth (cause.depth + 1) then some depth_guard else elim routine [
      | none ↦ none
      | some r ↦ if routine_in_chain table cause r then some self_trigger_guard else none
    ]

-- `if dedupe_key:` is false of the empty text.
pub is_duplicate : Events → Option String → Bool
is_duplicate table none = false
is_duplicate table (some key) = not (key == "") && any_where (λ e. e.dedupe_key == some key) table

abbrev pub recent_events : Events → Uuid → Instant → ℕ
recent_events table routine since =
    count_where (λ e. e.routine_id == some routine && leb since e.received_at) table

pub kill_switch : Events → Option Uuid → Instant → Bool
kill_switch table none now = false
kill_switch table (some routine) now =
    leb rule_kill_switch_per_hour (recent_events table routine (now - hours 1))

abbrev pub instant_or : Option Instant → Instant → Instant
instant_or none d = d
instant_or (some a) d = a

pub new_event : Env → Emission → AmbientEvent
unfolding provenance
new_event env a = record {
  id = env.fresh;
  kind = a.kind;
  source = a.source;
  payload = a.payload;
  dedupe_key = a.dedupe_key;
  routine_id = a.routine_id;
  intent_id = a.intent_id;
  causation_id = (provenance a.caused_by).causation_id;
  correlation_id = or_else (provenance a.caused_by).correlation_id env.fresh;
  depth = (provenance a.caused_by).depth;
  occurred_at = instant_or a.occurred_at env.db_now;
  received_at = env.db_now;
  verdict = none;
}

-- What follows the guards of a derived event.
pub append_event : Env → Emission → Events → Outcome × Events
append_event env a table =
    if is_duplicate table a.dedupe_key
    then (deduped, table)
    else if kill_switch table a.routine_id env.now
    then (raised kill_switch_guard, table)
    else (stored (new_event env a), new_event env a ∷ table)

unfoldable pub emit_event : Env → Emission → Events → Outcome × Events
unfolding append_event
emit_event env a table =
    if not (is_event_source a.source)
    then (raised unknown_source, table)
    else if a.require_enabled && not env.ambient_enabled
    then (raised ambient_disabled, table)
    else elim (chain_guards table a.caused_by a.routine_id) [
      | some error ↦ (raised error, table)
      | none ↦ append_event env a table
    ]
