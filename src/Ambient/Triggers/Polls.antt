-- ===== src/Ambient/Triggers/Polls.antt =====
-- Adaptive pollers (backend/app/ambient/triggers.py).
pub mod Paced
use concierge_agent.Prelude.{
  ℕ, zero, suc, ◌+◌, ◌*◌, String, Bool, true, false, not, ◌&&◌, Option, none, some, List, [], ◌∷◌,
  map, min, leb, if◌then◌else◌, ◌==◌, nat_eq, string_eq, select,
}
use concierge_agent.Prelude.Clock.{Instant, seconds}
use concierge_agent.Ambient.Events.{
  Uuid, Events, Emission, EmitError, Env, Outcome, raised, deduped, stored, has_ended, emit_event,
}

-- The columns of a standing intent that the poller uses; `source` is the compiled rule's, and
-- `backoff n` is int(n * backoff_multiplier).
pub record StandingIntent : Type 0 where
  pub id : Uuid
  pub status : String
  pub condition_type : String
  pub source : Option String
  pub watermark : Option String
  pub base_interval_s : ℕ
  pub current_interval_s : ℕ
  pub max_interval_s : ℕ
  pub backoff : ℕ → ℕ
  pub consecutive_quiet : ℕ
  pub last_checked_at : Option Instant
  pub expires_at : Option Instant

-- What a pass meets: the clock, the registry, the answer of an intent's source (`none`: it raised)
-- with the new watermark, and what the emission of an item meets.
pub record Polling : Type 0 where
  pub now : Instant
  pub registered : String → Bool
  pub poll : StandingIntent → Option (List String × Option String)
  pub emitting : Uuid → ℕ → Env

abbrev pub items_per_check : ℕ
items_per_check = 20

abbrev pub is_registered : Polling → Option String → Bool
is_registered env none = false
is_registered env (some source) = not (source == "") && env.registered source

abbrev pub has_passed : Instant → Option Instant → Bool
has_passed now none = false
has_passed now (some at) = leb at now

-- A deadline within twice the interval.
abbrev pub is_near : Instant → Option Instant → ℕ → Bool
is_near now none span = false
is_near now (some at) span = leb at (now + seconds (2 * span))

unfoldable pub effective_interval : Instant → StandingIntent → ℕ
effective_interval now i =
    if is_near now i.expires_at i.current_interval_s
    then min i.current_interval_s i.base_interval_s
    else i.current_interval_s

-- The interval since the last check has elapsed.
unfoldable pub is_due : Instant → StandingIntent → Bool
unfolding effective_interval
is_due now i = elim i.last_checked_at [
  | none ↦ true
  | some last ↦ leb (last + seconds (effective_interval now i)) now
]

-- What a check writes to the row.
unfoldable pub checked : Instant → List String → Option String → StandingIntent → StandingIntent
checked now [] mark r = record r {
  last_checked_at = some now;
  consecutive_quiet = suc r.consecutive_quiet;
  current_interval_s = min (r.backoff r.current_interval_s) r.max_interval_s;
}
checked now (x ∷ xs) mark r = record r {
  last_checked_at = some now;
  watermark = mark;
  consecutive_quiet = 0;
  current_interval_s = r.base_interval_s;
}

abbrev pub expire : StandingIntent → StandingIntent
expire r = record r { status = "expired" }

pub item_emission : Uuid → String → Emission
item_emission intent item = record {
  kind = "intent_poll_item";
  source = "poll";
  payload = some item;
  dedupe_key = none;
  routine_id = none;
  intent_id = some intent;
  caused_by = none;
  occurred_at = none;
  require_enabled = true;
}

-- The tables, the events emitted, and the exception that ended the pass, if any.
pub record Pass : Type 0 where
  pub intents : List StandingIntent
  pub events : Events
  pub emitted : ℕ
  pub error : Option EmitError

unfoldable pub settle_item : Pass → Outcome → Pass
settle_item s (raised error) = record s { error = some error }
settle_item s deduped = s
settle_item s (stored e) = record s { emitted = suc s.emitted }

-- `for item in items[:n]`
unfoldable pub emit_items : Polling → Uuid → ℕ → List String → Pass → Pass
unfolding settle_item emit_event item_emission has_ended
emit_items env id zero items s = s
emit_items env id (suc n) [] s = s
emit_items env id (suc n) (item ∷ rest) s =
    let result = emit_event (env.emitting id n) (item_emission id item) s.events in
    let t = settle_item (record s { events = result.1 }) result.0 in
    elim (has_ended t.error) [ true ↦ t | false ↦ emit_items env id n rest t ]

unfoldable pub change : Uuid → (StandingIntent → StandingIntent) → Pass → Pass
change id f s = record s {
  intents = map (λ (r : StandingIntent). if r.id == id then f r else r) s.intents;
}

-- A check: the source is asked, the row is written, the items become events.
unfoldable pub check_intent : Polling → StandingIntent → Pass → Pass
unfolding change checked emit_items
check_intent env i s = elim (env.poll i) [
  | none ↦ s
  | some (items, mark) ↦
      emit_items env i.id items_per_check items (change i.id (checked env.now items mark) s)
]

-- One round of the loop.
unfoldable pub poll_intent : Polling → StandingIntent → Pass → Pass
unfolding check_intent change is_due
poll_intent env i s =
    if not (is_registered env i.source)
    then s
    else if has_passed env.now i.expires_at
    then change i.id expire s
    else if is_due env.now i
    then check_intent env i s
    else s

unfoldable pub poll_intents : Polling → List StandingIntent → Pass → Pass
unfolding poll_intent has_ended
poll_intents env [] s = s
poll_intents env (i ∷ rest) s = elim (has_ended s.error) [
  | true ↦ s
  | false ↦ poll_intents env rest (poll_intent env i s)
]

unfoldable pub poll_due_intents : Polling → List StandingIntent → Events → Pass
unfolding poll_intents
poll_due_intents env intents events =
    poll_intents env
      (select (λ (i : StandingIntent). i.status == "active" && i.condition_type == "event") intents)
      (record { intents = intents; events = events; emitted = 0; error = none })
