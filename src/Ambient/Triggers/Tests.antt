-- ===== src/Ambient/Triggers/Tests.antt =====
-- Small tables of routines and intents (backend/app/ambient/triggers.py).
use concierge_agent.Prelude.{
  Option, if◌then◌else◌, ℕ, ◌+◌, ◌*◌, ◌≤◌, ◌≡◌, refl, true, false, none, some, List, [], ◌∷◌, arith,
  All, leb, ◌==◌, nat_eq, string_eq,
}
use concierge_agent.Prelude.Clock.{hours}
use concierge_agent.Ambient.Events.{Env}
use concierge_agent.Ambient.Events.Cases.{events_of}
use concierge_agent.Ambient.Triggers.Schedules
use concierge_agent.Ambient.Triggers.Polls
use concierge_agent.Ambient.Triggers.Polls.Paced.{IsPaced, rows_of, poll_due_intents-IsPaced}
use concierge_agent.Ambient.Triggers.States
use concierge_agent.Ambient.Triggers.States.Edges.{Moment, rises, watch, watch_counts_rises}

abbrev meets : ℕ → Env
meets fresh = record { ambient_enabled = true; now = hours 13; db_now = hours 13; fresh = fresh }

-- Schedules: a routine that runs every hour and one that is paused.
abbrev calendar : Schedules.Croniter
calendar = record { is_valid = λ expr. false; get_next = λ expr at. at }

abbrev ticking : Schedules.Ticking
ticking = record {
  now = hours 13;
  calendar = calendar;
  emitting = λ id i. meets (10 + i);
  key = λ id i. "sched:1:0";
  payload = λ t i. "{}";
  failure = λ id. "Unhandled trigger error";
}

abbrev hourly : Schedules.Routine
hourly = record {
  id = 1;
  status = "active";
  status_reason = none;
  triggers = Schedules.interval (some 3600) ∷ [];
  last_fired_at = some (hours 11);
  stagger_offset_s = 0;
  consecutive_failures = 0;
}

abbrev paused : Schedules.Routine
paused = record hourly { id = 2; status = "paused" }

abbrev tables : Schedules.Tables
tables = record { routines = hourly ∷ paused ∷ []; events = [] }

-- Pollers: an intent whose source has two items.
abbrev mail : Polls.StandingIntent
mail = record {
  id = 5;
  status = "active";
  condition_type = "event";
  source = some "mail";
  watermark = none;
  base_interval_s = 300;
  current_interval_s = 600;
  max_interval_s = 3600;
  backoff = λ n. 2 * n;
  consecutive_quiet = 1;
  last_checked_at = none;
  expires_at = none;
}

abbrev polling : Polls.Polling
polling = record {
  now = hours 13;
  registered = λ source. source == "mail";
  poll = λ intent. some ("a" ∷ "b" ∷ [], some "b");
  emitting = λ id n. meets n;
}

mail-IsPaced : All IsPaced (mail ∷ [])
mail-IsPaced = (
  record {
    ordered = omega arith;
    at_least = omega arith;
    at_most = omega arith;
    grows = λ n. omega arith;
  },
  tt,
)

mail_once : (id : ℕ) → rows_of id (mail ∷ []) ≤ 1
mail_once id = ground arith

poll_due_intents-IsPaced_example :
    All IsPaced (Polls.poll_due_intents polling (mail ∷ []) []).intents
    × ((id : ℕ)
        → events_of id (Polls.poll_due_intents polling (mail ∷ []) []).events
          ≤ events_of id [] + Polls.items_per_check)
poll_due_intents-IsPaced_example =
    poll_due_intents-IsPaced polling (mail ∷ []) [] mail-IsPaced mail_once

-- State conditions: a probe that reads 3, then nothing, then 1, then 4, against `>= 3`, beside
-- another one that always reads 9.
abbrev naturals : States.Floats
naturals = record { Float = ℕ; le = leb; same = λ m n. m == n }

abbrev queue_depth : States.StandingIntent naturals
queue_depth = record {
  id = 6;
  status = "active";
  condition_type = "state";
  probe = some "queue_depth";
  op = ">=";
  value = 3;
  watermark = none;
}

abbrev load : States.StandingIntent naturals
load = record queue_depth { id = 7; probe = some "load" }

abbrev moment : Option ℕ → Moment naturals
moment answer = record {
  value = λ id. if id == 6 then answer else some 9;
  emitting = λ id. meets id;
  payload = λ id. "{}";
}

abbrev moments : List (Moment naturals)
moments = moment (some 3) ∷ moment none ∷ moment (some 1) ∷ moment (some 4) ∷ []

watch_counts_rises_example :
    events_of 6 (watch naturals moments (load ∷ queue_depth ∷ []) [])
    ≡ 0 + rises false (true ∷ false ∷ true ∷ [])
unfolding States.holds
watch_counts_rises_example =
    watch_counts_rises naturals moments queue_depth (load ∷ queue_depth ∷ []) []
      ((λ id. refl), ((λ id. refl), ((λ id. refl), ((λ id. refl), tt)))) refl (omega arith) refl
      refl
