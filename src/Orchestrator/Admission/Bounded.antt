-- ===== src/Orchestrator/Admission/Bounded.antt =====
-- How many runs execute at once, in whatever order the tasks step
-- (backend/app/orchestrator/admission.py).
use concierge_agent.Prelude.{List, ℕ, ◌≤◌, ◌<◌, arith, length, IsIn}
use concierge_agent.Ambient.Events.{Uuid}
use concierge_agent.Orchestrator.Admission.{Semaphore, RunSettings, limits_from, enter_slot}
use concierge_agent.Orchestrator.Admission.Slots.{
  System, Step, enters, acquires, is_cancelled, leaves, switches, Reach, start, next, initial,
}
use concierge_agent.Orchestrator.Admission.Capacity.{
  Pool, PoolEvent, PoolStep, arrives, begins, gives_up, ends, stays, PoolReach, begin, step,
  pool_of, event_of, events_of, Inv, initial-Inv, length-running, Refines, enters-Refines,
}
use concierge_agent.Orchestrator.Admission.Capacity.Places.{IsBuilt-waiting}
use concierge_agent.Orchestrator.Admission.Capacity.Moves.{
  acquires-Refines, cancels-Refines, leaves-Refines, switches-Refines,
}

Step-Refines :
    (settings : RunSettings) (x y : System) (t : Step settings x y)
    → Inv (limits_from settings).0 x
    → Refines (limits_from settings).0 x y (event_of t)
unfolding enter_slot
Step-Refines settings x _ (enters run new free) h = enters-Refines settings run x h new free
Step-Refines settings x _ (acquires run s at some_left) h =
    acquires-Refines (limits_from settings).0 x h run s at some_left
Step-Refines settings x _ (is_cancelled run s at) h =
    cancels-Refines (limits_from settings).0 x h run s at
Step-Refines settings x _ (leaves run s at) h = leaves-Refines (limits_from settings).0 x h run s at
Step-Refines settings x _ (switches value now) h =
    switches-Refines (limits_from settings).0 x h value now

Reach-Inv :
    (settings : RunSettings) (y : System) (r : Reach settings initial y)
    → Inv (limits_from settings).0 y
      × PoolReach (limits_from settings).0 (pool_of initial) (events_of r) (pool_of y)
Reach-Inv settings _ start = (initial-Inv (limits_from settings).0, begin)
Reach-Inv settings z (next {y} before last) =
    let (h, counted) = Reach-Inv settings y before in
    let (k, moved) = Step-Refines settings y z last h in (k, step counted moved)

-- Under settings that stay the same, in whatever order the tasks step, the counts of running and
-- of queued runs are those of a pool with `run_max_concurrent` places to which the same happens, step
-- by step: an entry is an arrival, a wait that gets the semaphore a beginning (only with a place
-- left), a cancelled wait a giving up, and a body that is left an ending.
pub slots_refine :
    (settings : RunSettings) (y : System) (r : Reach settings initial y)
    → PoolReach (limits_from settings).0 (pool_of initial) (events_of r) (pool_of y)
slots_refine settings y r = (Reach-Inv settings y r).1

PoolStep-le :
    (n : ℕ) (p q : Pool) (e : PoolEvent) → PoolStep n p q e → p.running ≤ n → q.running ≤ n
PoolStep-le n p q _ (arrives r w) h = omega arith
PoolStep-le n p q _ (begins room r w) h = omega arith
PoolStep-le n p q _ (gives_up r w) h = omega arith
PoolStep-le n p q _ (ends r w) h = omega arith
PoolStep-le n p q _ (stays r w) h = omega arith

PoolReach-le :
    (n : ℕ) (events : List PoolEvent) (q : Pool)
    → PoolReach n (pool_of initial) events q
    → q.running ≤ n
PoolReach-le n _ _ begin = omega arith
PoolReach-le n _ r (step {q} {before = before} {e = e} past last) =
    PoolStep-le n q r e last (PoolReach-le n before q past)

-- Under settings that stay the same, at most `run_max_concurrent` runs execute at once.
pub running_bounded :
    (settings : RunSettings) (y : System)
    → Reach settings initial y
    → length y.state.running ≤ (limits_from settings).0
running_bounded settings y r =
    PoolReach-le (limits_from settings).0 (events_of r) (pool_of y) (slots_refine settings y r)

-- Under settings that stay the same, a run waits only while every place is taken: with a place left,
-- the semaphore it waits on has one to give.
pub waits_only_when_full :
    (settings : RunSettings) (y : System) (run : Uuid) (s : Semaphore)
    → Reach settings initial y
    → IsIn (run, s) y.waiting
    → length y.state.running < (limits_from settings).0
    → 0 < y.state.free s
waits_only_when_full settings y run s r at room =
    let h = (Reach-Inv settings y r).0 in
    let (here, fits, w, held, sum) = IsBuilt-waiting (limits_from settings).0 y run s h.built at in
    omega (arith, length-running (limits_from settings).0 y h, sum, room)
