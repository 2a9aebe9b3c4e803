-- ===== src/Orchestrator/Admission/Capacity/Places.antt =====
-- The semaphore that a task of the process has in hand (backend/app/orchestrator/admission.py).
use concierge_agent.Prelude.{ℕ, ◌+◌, ◌≡◌, sym, subst, some, length, IsIn, All, All-IsIn, nat_eq}
use concierge_agent.Ambient.Events.{Uuid}
use concierge_agent.Orchestrator.Admission.{Semaphore}
use concierge_agent.Orchestrator.Admission.Slots.{Task, System}
use concierge_agent.Orchestrator.Admission.Capacity.{IsBuilt, unused, in_use}

-- Who waits or holds has the semaphore of the process in hand.
pub IsBuilt-waiting :
    (n : ℕ) (x : System) (run : Uuid) (s : Semaphore)
    → IsBuilt n x
    → IsIn (run, s) x.waiting
    → (x.state.semaphore ≡ some s)
      × (x.state.semaphore_size ≡ n)
      × All (λ (t : Task). t.1 ≡ s) x.waiting
      × All (λ (t : Task). t.1 ≡ s) x.holding
      × (x.state.free s + length x.holding ≡ n)
IsBuilt-waiting n x run s (unused absent w held) at = absurd (subst (λ l. IsIn (run, s) l) w at)
IsBuilt-waiting n x run s (in_use t here fits w held room) at =
    let same : s ≡ t = All-IsIn (λ (u : Task). u.1 ≡ t) x.waiting (run, s) w at in
    subst
      (λ u.
        (x.state.semaphore ≡ some u)
        × (x.state.semaphore_size ≡ n)
        × All (λ (t : Task). t.1 ≡ u) x.waiting
        × All (λ (t : Task). t.1 ≡ u) x.holding
        × (x.state.free u + length x.holding ≡ n))
      (sym same) (here, fits, w, held, room)

pub IsBuilt-holding :
    (n : ℕ) (x : System) (run : Uuid) (s : Semaphore)
    → IsBuilt n x
    → IsIn (run, s) x.holding
    → (x.state.semaphore ≡ some s)
      × (x.state.semaphore_size ≡ n)
      × All (λ (t : Task). t.1 ≡ s) x.waiting
      × All (λ (t : Task). t.1 ≡ s) x.holding
      × (x.state.free s + length x.holding ≡ n)
IsBuilt-holding n x run s (unused absent w held) at = absurd (subst (λ l. IsIn (run, s) l) held at)
IsBuilt-holding n x run s (in_use t here fits w held room) at =
    let same : s ≡ t = All-IsIn (λ (u : Task). u.1 ≡ t) x.holding (run, s) held at in
    subst
      (λ u.
        (x.state.semaphore ≡ some u)
        × (x.state.semaphore_size ≡ n)
        × All (λ (t : Task). t.1 ≡ u) x.waiting
        × All (λ (t : Task). t.1 ≡ u) x.holding
        × (x.state.free u + length x.holding ≡ n))
      (sym same) (here, fits, w, held, room)
