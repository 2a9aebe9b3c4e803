-- ===== src/Orchestrator/Admission/Slots.antt =====
-- The tasks inside `slot`, their steps in any order, and the pool that they make up
-- (backend/app/orchestrator/admission.py).
use concierge_agent.Prelude.{
  suc, ◌<◌, ◌≡◌, ◌≢◌, refl, sym, ap, subst, inl, inr, Bool, true, not, none, List, [], ◌∷◌, map,
  length, contains, select, IsIn, contains-IsIn, Bool-cases, ==_ne, ==_ne_iff, ==_refl, ◌==◌,
  nat_eq,
}
use concierge_agent.Prelude.Clock.{Instant}
use concierge_agent.Ambient.Events.{Uuid}
use concierge_agent.Orchestrator.Admission.{
  Semaphore, Admission, RunSettings, set_accepting, add, discard, enter_slot, abandon_slot,
  hold_slot, leave_slot,
}

-- A task: its run, and the semaphore that its `slot` has in hand.
abbrev pub Task : Type 0
Task = Uuid × Semaphore

pub record System : Type 0 where
  pub state : Admission
  pub waiting : List Task
  pub holding : List Task

abbrev pub runs : List Task → List Uuid
runs tasks = map (λ (t : Task). t.0) tasks

abbrev pub without : Uuid → List Task → List Task
without run tasks = select (λ (t : Task). not (t.0 == run)) tasks

-- One step of one task, or of the operator. A run enters once.
pub data Step (settings : RunSettings) (x : System) : System → Type 0 where
  enters :
      (run : Uuid)
      → ¬ (IsIn run (runs x.waiting))
      → ¬ (IsIn run (runs x.holding))
      → Step settings x (record {
        state = (enter_slot run settings x.state).1;
        waiting = (run, (enter_slot run settings x.state).0) ∷ x.waiting;
        holding = x.holding;
      })
  acquires :
      (run : Uuid) (s : Semaphore)
      → IsIn (run, s) x.waiting
      → 0 < x.state.free s
      → Step settings x (record {
        state = hold_slot run s x.state;
        waiting = without run x.waiting;
        holding = (run, s) ∷ x.holding;
      })
  is_cancelled :
      (run : Uuid) (s : Semaphore)
      → IsIn (run, s) x.waiting
      → Step settings x
          (record x { state = abandon_slot run x.state; waiting = without run x.waiting })
  leaves :
      (run : Uuid) (s : Semaphore)
      → IsIn (run, s) x.holding
      → Step settings x
          (record x { state = leave_slot run s x.state; holding = without run x.holding })
  switches :
      (value : Bool) (now : Instant)
      → Step settings x (record x { state = set_accepting value now x.state })

pub data Reach (settings : RunSettings) (x : System) : System → Type 0 where
  start : Reach settings x x
  next : {y z : System} → Reach settings x y → Step settings y z → Reach settings x z

-- The process at its start.
abbrev pub initial : System
initial = record {
  state = record {
    running = [];
    queued = [];
    accepting = true;
    draining_since = none;
    semaphore = none;
    semaphore_size = 0;
    free = λ s. 0;
    built = 0;
  };
  waiting = [];
  holding = [];
}

-- No run repeats.
abbrev pub IsUnique : List Task → Type 0
IsUnique [] = Unit
IsUnique (t ∷ rest) = ¬ (IsIn t.0 (runs rest)) × IsUnique rest

pub without_absent :
    (run : Uuid) (tasks : List Task) → ¬ (IsIn run (runs tasks)) → without run tasks ≡ tasks
without_absent run [] h = refl
without_absent run (t ∷ rest) h =
    rw (==_ne_iff t.0 run (λ e. h (inl (sym e))))
      (ap (λ l. t ∷ l) (without_absent run rest (λ at. h (inr at))))

pub IsIn-without :
    (run : Uuid) (t : Task) (tasks : List Task) → IsIn t (without run tasks) → IsIn t tasks
IsIn-without run t [] at = absurd at
IsIn-without run t (u ∷ rest) at = elim (Bool-cases (u.0 == run)) [
  | inl same ↦ inr (IsIn-without run t rest (rw same at at))
  | inr other ↦ elim (rw other at at) [
    | inl e ↦ inl e
    | inr more ↦ inr (IsIn-without run t rest more)
  ]
]

pub IsIn-runs : (t : Task) (tasks : List Task) → IsIn t tasks → IsIn t.0 (runs tasks)
IsIn-runs t [] at = absurd at
IsIn-runs t (u ∷ rest) (inl e) = inl (ap (λ (p : Task). p.0) e)
IsIn-runs t (u ∷ rest) (inr at) = inr (IsIn-runs t rest at)

pub runs-without :
    (run : Uuid) (tasks : List Task) → discard run (runs tasks) ≡ runs (without run tasks)
runs-without run [] = refl
runs-without run (t ∷ rest) = elim (Bool-cases (t.0 == run)) [
  | inl same ↦ rw same (runs-without run rest)
  | inr other ↦ rw other (ap (λ l. t.0 ∷ l) (runs-without run rest))
]

pub IsIn-runs_without :
    (run other : Uuid) (tasks : List Task)
    → IsIn other (runs (without run tasks))
    → IsIn other (runs tasks) × (other ≢ run)
IsIn-runs_without run other [] at = absurd at
IsIn-runs_without run other (t ∷ rest) at = elim (Bool-cases (t.0 == run)) [
  | inl same ↦ let (old, ne) = IsIn-runs_without run other rest (rw same at at) in (inr old, ne)
  | inr differs ↦ elim (rw differs at at) [
    | inl e ↦ (inl e, subst (λ u. u ≢ run) (sym e) (==_ne t.0 run differs))
    | inr more ↦ let (old, ne) = IsIn-runs_without run other rest more in (inr old, ne)
  ]
]

pub without-IsUnique :
    (run : Uuid) (tasks : List Task) → IsUnique tasks → IsUnique (without run tasks)
without-IsUnique run [] h = tt
without-IsUnique run (t ∷ rest) h = elim (Bool-cases (t.0 == run)) [
  | inl same ↦ rw same (without-IsUnique run rest h.1)
  | inr other ↦
      rw other (λ at. h.0 (IsIn-runs_without run t.0 rest at).0, without-IsUnique run rest h.1)
]

pub length-without :
    (t : Task) (tasks : List Task)
    → IsUnique tasks
    → IsIn t tasks
    → suc (length (without t.0 tasks)) ≡ length tasks
length-without t [] h at = absurd at
length-without t (u ∷ rest) h (inl e) =
    let same : u.0 ≡ t.0 = sym (ap (λ (p : Task). p.0) e) in
    rw (same, ==_refl t.0)
      (ap (λ (l : List Task). suc (length l))
        (without_absent t.0 rest (subst (λ r. ¬ (IsIn r (runs rest))) same h.0)))
length-without t (u ∷ rest) h (inr at) =
    let differs : u.0 ≢ t.0 =
      λ e. h.0 (subst (λ r. IsIn r (runs rest)) (sym e) (IsIn-runs t rest at)) in
    rw (==_ne_iff u.0 t.0 differs) (ap suc (length-without t rest h.1 at))

pub length-runs : (tasks : List Task) → length (runs tasks) ≡ length tasks
length-runs [] = refl
length-runs (t ∷ rest) = ap suc (length-runs rest)

pub add_absent :
    (run : Uuid) (tasks : List Task)
    → ¬ (IsIn run (runs tasks))
    → add run (runs tasks) ≡ run ∷ runs tasks
add_absent run tasks h = elim (Bool-cases (contains run (runs tasks))) [
  | inl met ↦ absurd (h (contains-IsIn run (runs tasks) met))
  | inr new ↦ rw new
]
