-- ===== src/Ambient/Wakeups/Caps.antt =====
-- The cap on pending wakeups, and the bounds of a delay (backend/app/ambient/wakeups.py).
use concierge_agent.Prelude.{
  ◌+◌, ◌≤◌, ◌≡◌, inl, inr, arith, Bool-cases, leb, ◌==◌, nat_eq, string_eq, option_eq, ==_eq,
}
use concierge_agent.Prelude.Clock.{seconds, hours}
use concierge_agent.Ambient.Events.{Uuid}
use concierge_agent.Ambient.Wakeups.{
  AmbientWakeup, Wakeups, Request, due_at, pending, booked_today, wakeup_max_pending, Booker,
  new_wakeup, schedule_wakeup, booked,
}

-- No routine has more pending wakeups than the cap.
abbrev pub IsCapped : Wakeups → Type 0
IsCapped table = (routine : Uuid) → pending routine table ≤ wakeup_max_pending

-- Whatever is booked, no routine comes to have more than five pending wakeups, if none had.
pub schedule_wakeup-IsCapped :
    (env : Booker) (routine : Uuid) (r : Request) (table : Wakeups)
    → IsCapped table
    → IsCapped (schedule_wakeup env routine r table).1
unfolding schedule_wakeup new_wakeup
schedule_wakeup-IsCapped env routine r table h other =
    elim (Bool-cases (leb wakeup_max_pending (pending routine table))) [
      | inl full ↦ rw full (h other)
      | inr room ↦ elim (Bool-cases (leb env.daily_cap (booked_today routine env.now table))) [
        | inl spent ↦ rw (room, spent) (h other)
        | inr free ↦
            rw (room, free)
              (elim (Bool-cases (routine == other)) [
                | inr apart ↦ ground (arith, apart, h other)
                | inl same ↦ ground (arith, room, ==_eq routine other same)
              ])
      ]
    ]

-- A booked wakeup is due a minute at the earliest and a day at the latest after the call.
pub schedule_wakeup_clamps :
    (env : Booker) (routine : Uuid) (r : Request) (table : Wakeups) (row : AmbientWakeup)
    → (schedule_wakeup env routine r table).0 ≡ booked row
    → (env.now + seconds 60 ≤ row.due_at) × (row.due_at ≤ env.now + hours 24)
unfolding schedule_wakeup new_wakeup due_at
schedule_wakeup_clamps env routine r table row h =
    elim (Bool-cases (leb wakeup_max_pending (pending routine table))) [
      | inl full ↦ cc (rw full at h)
      | inr room ↦ elim (Bool-cases (leb env.daily_cap (booked_today routine env.now table))) [
        | inl spent ↦ cc (rw (room, spent) at h)
        | inr free ↦
            let e : booked (new_wakeup env routine r) ≡ booked row = rw (room, free) at h in
            let same : new_wakeup env routine r ≡ row = cc in rw (← same) (omega arith, omega arith)
      ]
    ]
