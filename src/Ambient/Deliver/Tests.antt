-- ===== src/Ambient/Deliver/Tests.antt =====
-- A small outbox, and what the passes make of it (backend/app/ambient/deliver.py).
use concierge_agent.Prelude.{
  ℕ, max, ◌≤◌, ◌≡◌, ◌≢◌, refl, true, false, none, some, [], ◌∷◌, map, arith, IsIn,
}
use concierge_agent.Prelude.Clock.{hours}
use concierge_agent.Ambient.Deliver.Outbox.{Delivery, Outbox, Item, Inserting, add_delivery}
use concierge_agent.Ambient.Deliver.Settings.{Zone, Settings, in_quiet_hours, effective_settings}
use concierge_agent.Ambient.Deliver.Flush.{
  Bucket, Env, interrupts_today, approvals_today, digest_flush, ids,
}
use concierge_agent.Ambient.Deliver.Tick.{Counts, is_quiet, flush_bucket, flush_deliveries}
use concierge_agent.Ambient.Deliver.Rows.{HasUniqueIds}
use concierge_agent.Ambient.Deliver.Budget.{flush_bucket-interrupts_today}
use concierge_agent.Ambient.Deliver.Quiet.{sent, flush_bucket_quiet}
use concierge_agent.Ambient.Deliver.Handled.{NoneWaits, flush_bucket-NoneWaits}
use concierge_agent.Ambient.Deliver.Digest.{digest_flush-approvals_today}
use concierge_agent.Ambient.Deliver.Steps.{
  Run, start, next, added, flushed, HasOneOpen, run_keeps, run-HasOneOpen,
}

abbrev utc : Zone
utc = record { wall = λ t. t; instant = λ t. t }

abbrev settings : Settings
settings = record {
  quiet_hours = (22, 0) ∷ (7, 0) ∷ [];
  digest_times = (9, 0) ∷ [];
  timezone = utc;
  notification_budget = 1;
  escalation_budget = 1;
}

abbrev at_hour : ℕ → Env
at_hour hour = record {
  globals = settings;
  prefs = λ user. record { quiet_hours = none; digest_times = none; timezone = none };
  presence = λ key. none;
  dispatch = λ mode rows. ("web", "ok") ∷ [];
  now = hours hour;
}

abbrev interrupt_row : ℕ → Delivery
interrupt_row id = record {
  id = id;
  user_id = none;
  run_id = none;
  intent_id = none;
  category = "alert";
  tier = 0;
  urgency = 5;
  title = "alert";
  body = none;
  deliver_no_later_than = none;
  delivered_at = none;
  channel = none;
  superseded_by = none;
  policy_id = none;
  skey = none;
  external = [];
  feedback = none;
  created_at = id;
}

abbrev outbox : Outbox
outbox =
    interrupt_row 1
    ∷ interrupt_row 2
    ∷ record (interrupt_row 3) { tier = 2; category = "hitl" }
    ∷ []

abbrev everyone : Bucket
everyone = record { owner = none; scoped = false }

abbrev counts : Counts
counts = record { interrupt = 0; notify = 0; digest = 0; demoted = 0 }

outbox-HasUniqueIds : HasUniqueIds outbox
outbox-HasUniqueIds = (λ at. ground arith, (λ at. ground arith, (λ at. ground arith, tt)))

-- By day: one interrupt is delivered, the other is demoted and leads the digest.
flush_bucket_day :
    (flush_bucket (at_hour 12) everyone (counts, outbox)).0
    ≡ record { interrupt = 1; notify = 0; digest = 2; demoted = 1 }
unfolding flush_bucket
flush_bucket_day = refl

flush_bucket-interrupts_today_example :
    interrupts_today everyone (hours 12) (flush_bucket (at_hour 12) everyone (counts, outbox)).1
    ≤ max (interrupts_today everyone (hours 12) outbox) 1
unfolding effective_settings
flush_bucket-interrupts_today_example =
    flush_bucket-interrupts_today (at_hour 12) everyone counts outbox outbox-HasUniqueIds

night_is_quiet : is_quiet (at_hour 23) everyone ≡ true
unfolding in_quiet_hours effective_settings
night_is_quiet = refl

flush_bucket_quiet_example :
    (map sent (flush_bucket (at_hour 23) everyone (counts, outbox)).1 ≡ map sent outbox)
    × ((flush_bucket (at_hour 23) everyone (counts, outbox)).0.interrupt ≡ 0)
    × ((flush_bucket (at_hour 23) everyone (counts, outbox)).0.notify ≡ 0)
    × ((flush_bucket (at_hour 23) everyone (counts, outbox)).0.digest ≡ 0)
flush_bucket_quiet_example = flush_bucket_quiet (at_hour 23) everyone counts outbox night_is_quiet

flush_bucket-NoneWaits_example :
    NoneWaits everyone (flush_bucket (at_hour 12) everyone (counts, outbox)).1
flush_bucket-NoneWaits_example = flush_bucket-NoneWaits (at_hour 12) everyone counts outbox

digest_flush-approvals_today_example :
    approvals_today everyone (hours 12) (digest_flush (at_hour 12) everyone outbox).1
    ≤ max (approvals_today everyone (hours 12) outbox) 1
unfolding effective_settings
digest_flush-approvals_today_example =
    digest_flush-approvals_today (at_hour 12) everyone outbox outbox-HasUniqueIds

abbrev inserting : Inserting
inserting = record {
  run_owner = λ run. none;
  intent_owner = λ intent. none;
  requester = none;
  policies = [];
  now = hours 12;
  db_now = hours 12;
  fresh = 4;
}

abbrev item : Item
item = record {
  category = "learning";
  tier = 2;
  urgency = 3;
  title = "proposal";
  body = none;
  run_id = none;
  intent_id = none;
  skey = some "learning:alert";
  deliver_no_later_than = none;
  user_id = none;
}

four_is_new : ¬ (IsIn 4 (ids outbox))
four_is_new at = ground arith

abbrev after : Outbox
after = (flush_deliveries (at_hour 12) false (add_delivery inserting item outbox)).1

abbrev outbox_run : Run outbox after
outbox_run = next (next start (added inserting item four_is_new)) (flushed (at_hour 12) false)

run_keeps_example :
    HasUniqueIds after × ((r : Delivery) → IsIn r outbox → r.delivered_at ≢ none → IsIn r after)
run_keeps_example = run_keeps outbox after outbox_run outbox-HasUniqueIds

outbox-HasOneOpen : HasOneOpen outbox
outbox-HasOneOpen key full = omega arith

run-HasOneOpen_example : HasOneOpen after
run-HasOneOpen_example =
    run-HasOneOpen outbox after outbox_run outbox-HasUniqueIds outbox-HasOneOpen
