-- ===== src/Orchestrator/Admission/Tests.antt =====
-- A process with one place (backend/app/orchestrator/admission.py).
use concierge_agent.Prelude.{ℕ, ◌≤◌, ◌<◌, ◌≡◌, inl, refl, some, [], ◌∷◌, arith, length}
use concierge_agent.Orchestrator.Admission.{
  Admission, RunSettings, limits_from, enter_slot, hold_slot, leave_slot,
}
use concierge_agent.Orchestrator.Admission.Slots.{System, enters, Reach, start, next, initial}
use concierge_agent.Orchestrator.Admission.Capacity.{arrival, PoolReach, pool_of}
use concierge_agent.Orchestrator.Admission.Bounded.{
  slots_refine, running_bounded, waits_only_when_full,
}

abbrev places : ℕ → RunSettings
places n = record { run_max_concurrent = some n; run_queue_max = some 0 }

-- Run 7 enters.
abbrev arrived : System
arrived = record {
  state = (enter_slot 7 (places 1) initial.state).1;
  waiting = (7, (enter_slot 7 (places 1) initial.state).0) ∷ [];
  holding = [];
}

abbrev arrived_reached : Reach (places 1) initial arrived
arrived_reached = next start (enters 7 (λ at. at) (λ at. at))

slots_refine_example :
    PoolReach (limits_from (places 1)).0 (pool_of initial) (arrival ∷ []) (pool_of arrived)
slots_refine_example = slots_refine (places 1) arrived arrived_reached

running_bounded_example : length arrived.state.running ≤ (limits_from (places 1)).0
running_bounded_example = running_bounded (places 1) arrived arrived_reached

nothing_runs : length arrived.state.running < (limits_from (places 1)).0
unfolding enter_slot limits_from
nothing_runs = omega arith

waits_only_when_full_example : 0 < arrived.state.free (enter_slot 7 (places 1) initial.state).0
waits_only_when_full_example =
    waits_only_when_full (places 1) arrived 7 (enter_slot 7 (places 1) initial.state).0
      arrived_reached (inl refl) nothing_runs

-- The setting goes from one place to two while run 2 has been handed the place that run 1 left:
-- the new semaphore knows nothing of it.
abbrev crowded : Admission
crowded =
    let one = places 1 in
    let two = places 2 in
    let (s, a1) = enter_slot 1 one initial.state in
    let a2 = hold_slot 1 s a1 in
    let a3 = (enter_slot 2 one a2).1 in
    let a4 = leave_slot 1 s a3 in
    let (t, a5) = enter_slot 3 two a4 in
    let a6 = hold_slot 3 t a5 in
    let a7 = (enter_slot 4 two a6).1 in let a8 = hold_slot 4 t a7 in hold_slot 2 s a8

crowded_runs : length crowded.running ≡ 3
unfolding enter_slot hold_slot leave_slot
crowded_runs = refl
