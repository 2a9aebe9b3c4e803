-- ===== src/Ambient/Events/Tests.antt =====
-- A small event table, and what `emit_event` does with it (backend/app/ambient/store.py).
use concierge_agent.Prelude.Clock.{hours}
use concierge_agent.Prelude.{
  ◌-◌, ◌≡◌, ◌≢◌, refl, true, none, some, [], ◌∷◌, arith, nat_eq, option_eq,
}
use concierge_agent.Ambient.Events.{
  AmbientEvent, Events, Emission, Env, stored, raised, self_trigger_guard, new_event, emit_event,
  is_event_source, chain_guards, routine_in_chain, is_duplicate, kill_switch,
}
use concierge_agent.Ambient.Events.Lineage.{IsSound, root, emit_event-IsSound}
use concierge_agent.Ambient.Events.Guards.{
  HasUniqueKeys, IsThrottled, emit_event-HasUniqueKeys, emit_event-IsThrottled,
  emit_event_unchanged,
}

abbrev first_event : AmbientEvent
first_event = record {
  id = 1;
  kind = "mail";
  source = "webhook";
  payload = none;
  dedupe_key = some "mail:1";
  routine_id = some 7;
  intent_id = none;
  causation_id = none;
  correlation_id = some 1;
  depth = 0;
  occurred_at = 100;
  received_at = 100;
  verdict = none;
}

abbrev one_event : Events
one_event = first_event ∷ []

abbrev soon : Env
soon = record { ambient_enabled = true; now = 200; db_now = 190; fresh = 2 }

abbrev follow_up : Emission
follow_up = record {
  kind = "follow_up";
  source = "internal";
  payload = none;
  dedupe_key = some "mail:1:follow_up";
  routine_id = some 8;
  intent_id = none;
  caused_by = some first_event;
  occurred_at = none;
  require_enabled = true;
}

abbrev own_follow_up : Emission
own_follow_up = record follow_up { routine_id = some 7 }

abbrev from_nowhere : Emission
from_nowhere = record follow_up { source = "mail" }

emit_event_stores :
    emit_event soon follow_up one_event
    ≡ (stored (new_event soon follow_up), new_event soon follow_up ∷ one_event)
unfolding emit_event is_event_source chain_guards routine_in_chain is_duplicate kill_switch
emit_event_stores = refl

emit_event_stops_itself :
    emit_event soon own_follow_up one_event ≡ (raised self_trigger_guard, one_event)
unfolding emit_event is_event_source chain_guards routine_in_chain is_duplicate kill_switch
emit_event_stops_itself = refl

one_event-IsSound : IsSound one_event
one_event-IsSound = (refl, root refl refl refl, tt)

one_event-HasUniqueKeys : HasUniqueKeys one_event
one_event-HasUniqueKeys = (λ key p named. tt, tt)

one_event-IsThrottled : IsThrottled (hours 1 - 10) one_event
one_event-IsThrottled routine since = ground arith

emit_event-IsSound_example : IsSound (emit_event soon follow_up one_event).1
emit_event-IsSound_example = emit_event-IsSound soon follow_up one_event one_event-IsSound refl refl

emit_event-HasUniqueKeys_example : HasUniqueKeys (emit_event soon follow_up one_event).1
emit_event-HasUniqueKeys_example =
    emit_event-HasUniqueKeys soon follow_up one_event one_event-HasUniqueKeys

emit_event-IsThrottled_example : IsThrottled (hours 1 - 10) (emit_event soon follow_up one_event).1
emit_event-IsThrottled_example =
    emit_event-IsThrottled (hours 1 - 10) 10 soon follow_up one_event (omega arith) (omega arith)
      one_event-IsThrottled

from_nowhere_raises : (e : AmbientEvent) → (emit_event soon from_nowhere one_event).0 ≢ stored e
unfolding emit_event is_event_source chain_guards routine_in_chain is_duplicate kill_switch
from_nowhere_raises e h = cc

emit_event_unchanged_example : (emit_event soon from_nowhere one_event).1 ≡ one_event
emit_event_unchanged_example = emit_event_unchanged soon from_nowhere one_event from_nowhere_raises
