-- ===== src/Ambient/Wakeups/Tests.antt =====
-- A small table of wakeups (backend/app/ambient/wakeups.py).
use concierge_agent.Prelude.{◌+◌, ◌≤◌, ◌≡◌, refl, true, none, some, [], ◌∷◌, arith}
use concierge_agent.Prelude.Clock.{seconds, hours}
use concierge_agent.Ambient.Wakeups.{
  AmbientWakeup, Request, delay_s, Booker, booked, schedule_wakeup, cancel_wakeup, Ticking,
  fire_due_wakeups,
}
use concierge_agent.Ambient.Wakeups.Caps.{
  IsCapped, schedule_wakeup-IsCapped, schedule_wakeup_clamps,
}
use concierge_agent.Ambient.Wakeups.Settled.{IsSettled, wakeups-IsSettled}

abbrev booker : Booker
booker = record { now = hours 12; db_now = hours 12; fresh = 1; daily_cap = 20 }

-- A request for a wakeup in five seconds, which is clamped to a minute.
abbrev request : Request
request = record {
  when = delay_s 5;
  reason = "check the mail";
  payload = none;
  created_by = "agent";
  run_id = none;
}

abbrev row : AmbientWakeup
row = record {
  id = 1;
  routine_id = some 7;
  run_id = none;
  due_at = hours 12 + seconds 60;
  reason = "check the mail";
  payload = none;
  created_by = "agent";
  status = "pending";
  created_at = hours 12;
  fired_at = none;
}

schedule_wakeup_books : (schedule_wakeup booker 7 request []) ≡ (booked row, row ∷ [])
unfolding schedule_wakeup
schedule_wakeup_books = refl

none-IsCapped : IsCapped []
none-IsCapped routine = omega arith

schedule_wakeup-IsCapped_example : IsCapped (schedule_wakeup booker 7 request []).1
schedule_wakeup-IsCapped_example = schedule_wakeup-IsCapped booker 7 request [] none-IsCapped

row_is_booked : (schedule_wakeup booker 7 request []).0 ≡ booked row
unfolding schedule_wakeup
row_is_booked = refl

schedule_wakeup_clamps_example :
    (hours 12 + seconds 60 ≤ row.due_at) × (row.due_at ≤ hours 12 + hours 24)
schedule_wakeup_clamps_example = schedule_wakeup_clamps booker 7 request [] row row_is_booked

abbrev ticking : Ticking
ticking = record {
  now = hours 13;
  runs = [];
  emitting = λ id. record { ambient_enabled = true; now = hours 13; db_now = hours 13; fresh = 2 };
  key = λ id. "wakeup:1";
  payload = λ w. "{}";
}

wakeups-IsSettled_example :
    IsSettled (row ∷ []) (cancel_wakeup 1 (row ∷ [])).1
    × IsSettled (row ∷ []) (fire_due_wakeups ticking (row ∷ []) []).wakeups
wakeups-IsSettled_example = wakeups-IsSettled 1 ticking (row ∷ []) []
