-- ===== src/Orchestrator/Admission/Capacity.antt =====
-- The slots of a process whose settings stay the same (backend/app/orchestrator/admission.py),
-- against a pool that only counts.
pub mod Places
pub mod Moves
use concierge_agent.Prelude.{
  ℕ, suc, ◌+◌, ◌-◌, ◌<◌, ◌≡◌, refl, sym, ap, ◌∙◌, subst, inl, inr, Bool, true, false, none, some,
  List, [], ◌∷◌, arith, length, IsIn, All, All-IsIn, Bool-cases, ==_refl, ◌==◌, nat_eq,
}
use concierge_agent.Prelude.Clock.{Instant}
use concierge_agent.Ambient.Events.{Uuid}
use concierge_agent.Orchestrator.Admission.{
  Semaphore, Admission, RunSettings, limits_from, set_accepting, update, build_semaphore,
  get_semaphore, add, discard, abandon_slot, hold_slot, leave_slot,
}
use concierge_agent.Orchestrator.Admission.Slots.{
  Task, System, Step, enters, acquires, is_cancelled, leaves, switches, Reach, start, next, runs,
  without, initial, IsUnique, IsIn-runs, runs-without, IsIn-runs_without, without-IsUnique,
  length-without, length-runs, add_absent,
}

-- The pool: how many run, and how many wait.
pub record Pool : Type 0 where
  pub running : ℕ
  pub queued : ℕ

-- What happens to the pool.
pub data PoolEvent : Type 0 where
  arrival beginning giving_up ending nothing : PoolEvent

-- What each of them does to a pool of `n` places.
pub data PoolStep (n : ℕ) (p q : Pool) : PoolEvent → Type 0 where
  arrives : q.running ≡ p.running → q.queued ≡ suc p.queued → PoolStep n p q arrival
  begins :
      p.running < n → q.running ≡ suc p.running → suc q.queued ≡ p.queued → PoolStep n p q beginning
  gives_up : q.running ≡ p.running → suc q.queued ≡ p.queued → PoolStep n p q giving_up
  ends : suc q.running ≡ p.running → q.queued ≡ p.queued → PoolStep n p q ending
  stays : q.running ≡ p.running → q.queued ≡ p.queued → PoolStep n p q nothing

-- The pool after a list of events, the last of them first.
pub data PoolReach (n : ℕ) (p : Pool) : List PoolEvent → Pool → Type 0 where
  begin : PoolReach n p [] p
  step :
      {q r : Pool} {before : List PoolEvent} {e : PoolEvent}
      → PoolReach n p before q
      → PoolStep n q r e
      → PoolReach n p (e ∷ before) r

-- What a step of a task is to the pool: an entry arrives, a wait that ends with a place begins, one
-- that is cancelled gives up, a body that is left ends.
abbrev pub event_of : {settings : RunSettings} {x y : System} → Step settings x y → PoolEvent
event_of (enters run new free) = arrival
event_of (acquires run s at some_left) = beginning
event_of (is_cancelled run s at) = giving_up
event_of (leaves run s at) = ending
event_of (switches value now) = nothing

abbrev pub events_of : {settings : RunSettings} {x y : System} → Reach settings x y → List PoolEvent
events_of start = []
events_of (next before last) = event_of last ∷ events_of before

abbrev pub pool_of : System → Pool
pool_of x = record { running = length x.state.running; queued = length x.state.queued }

-- The semaphore and those who have it in hand.
pub data IsBuilt (n : ℕ) (x : System) : Type 0 where
  unused : x.state.semaphore ≡ none → x.waiting ≡ [] → x.holding ≡ [] → IsBuilt n x
  in_use :
      (s : Semaphore)
      → x.state.semaphore ≡ some s
      → x.state.semaphore_size ≡ n
      → All (λ (t : Task). t.1 ≡ s) x.waiting
      → All (λ (t : Task). t.1 ≡ s) x.holding
      → x.state.free s + length x.holding ≡ n
      → IsBuilt n x

pub record Inv (n : ℕ) (x : System) : Type 0 where
  pub running : x.state.running ≡ runs x.holding
  pub queued : x.state.queued ≡ runs x.waiting
  pub unique_waiting : IsUnique x.waiting
  pub unique_holding : IsUnique x.holding
  pub apart : (run : Uuid) → IsIn run (runs x.waiting) → ¬ (IsIn run (runs x.holding))
  pub built : IsBuilt n x

pub initial-Inv : (n : ℕ) → Inv n initial
initial-Inv n = record {
  running = refl;
  queued = refl;
  unique_waiting = tt;
  unique_holding = tt;
  apart = λ run at held. held;
  built = unused refl refl refl;
}

pub All-without :
    (P : Task → Type 0) (run : Uuid) (tasks : List Task) → All P tasks → All P (without run tasks)
All-without P run [] h = tt
All-without P run (t ∷ rest) h = elim (Bool-cases (t.0 == run)) [
  | inl same ↦ rw same (All-without P run rest h.1)
  | inr other ↦ rw other (h.0, All-without P run rest h.1)
]

pub length-running : (n : ℕ) (x : System) → Inv n x → length x.state.running ≡ length x.holding
length-running n x h = ap length h.running ∙ length-runs x.holding

length-queued : (n : ℕ) (x : System) → Inv n x → length x.state.queued ≡ length x.waiting
length-queued n x h = ap length h.queued ∙ length-runs x.waiting

pub get_semaphore-none :
    (n : ℕ) (a : Admission)
    → a.semaphore ≡ none
    → get_semaphore n a ≡ (a.built, build_semaphore n a)
unfolding get_semaphore
get_semaphore-none n a h = simp (h, get_semaphore)

pub get_semaphore-some :
    (n : ℕ) (a : Admission) (s : Semaphore)
    → a.semaphore ≡ some s
    → a.semaphore_size ≡ n
    → get_semaphore n a ≡ (s, a)
unfolding get_semaphore
get_semaphore-some n a s h fits = simp (h, fits, ==_refl n, get_semaphore)

-- The system after a run has met a semaphore.
abbrev entered : Uuid → System → Semaphore × Admission → System
entered run x p = record {
  state = record p.1 { queued = add run p.1.queued };
  waiting = (run, p.0) ∷ x.waiting;
  holding = x.holding;
}

-- A step keeps the invariant, and is to the pool what its event says.
abbrev pub Refines : ℕ → System → System → PoolEvent → Type 0
Refines n x y e = Inv n y × PoolStep n (pool_of x) (pool_of y) e

entered-Refines :
    (n : ℕ) (run : Uuid) (x : System)
    → Inv n x
    → ¬ (IsIn run (runs x.waiting))
    → ¬ (IsIn run (runs x.holding))
    → (p : Semaphore × Admission) → p.1.running ≡ x.state.running
    → p.1.queued ≡ x.state.queued
    → IsBuilt n (entered run x p)
    → Refines n x (entered run x p) arrival
entered-Refines n run x h new free p same_r same_q built =
    let queue : add run p.1.queued ≡ run ∷ runs x.waiting =
      ap (add run) (same_q ∙ h.queued) ∙ add_absent run x.waiting new in
    (
      record {
        running = same_r ∙ h.running;
        queued = queue;
        unique_waiting = (new, h.unique_waiting);
        unique_holding = h.unique_holding;
        apart = λ other at. elim at [
          | inl e ↦ subst (λ u. ¬ (IsIn u (runs x.holding))) (sym e) free
          | inr old ↦ h.apart other old
        ];
        built = built;
      },
      arrives (ap length same_r) (ap length queue ∙ ap suc (ap length (sym h.queued))),
    )

pub enters-Refines :
    (settings : RunSettings) (run : Uuid) (x : System)
    → Inv (limits_from settings).0 x
    → ¬ (IsIn run (runs x.waiting))
    → ¬ (IsIn run (runs x.holding))
    → Refines
        (limits_from settings).0
        x
        (entered run x (get_semaphore (limits_from settings).0 x.state))
        arrival
unfolding build_semaphore
enters-Refines settings run x h new free = elim h.built [
  | unused absent w held ↦
      let n = (limits_from settings).0 in
      let room : update x.state.free x.state.built n x.state.built + length x.holding ≡ n =
        rw (held, ==_refl x.state.built) (omega arith) in
      subst (λ p. Refines n x (entered run x p) arrival) (sym (get_semaphore-none n x.state absent))
        (entered-Refines n run x h new free (x.state.built, build_semaphore n x.state) refl refl
          (in_use x.state.built refl refl
            (refl, subst (All (λ (t : Task). t.1 ≡ x.state.built)) (sym w) tt)
            (subst (All (λ (t : Task). t.1 ≡ x.state.built)) (sym held) tt) room))
  | in_use s here fits w held room ↦
      let n = (limits_from settings).0 in
      subst (λ p. Refines n x (entered run x p) arrival)
        (sym (get_semaphore-some n x.state s here fits))
        (entered-Refines n run x h new free (s, x.state) refl refl
          (in_use s here fits (refl, w) held room))
]
