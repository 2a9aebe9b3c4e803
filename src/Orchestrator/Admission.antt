-- ===== src/Orchestrator/Admission.antt =====
-- Admission control (backend/app/orchestrator/admission.py). The module's globals are one state; a
-- set of run ids is a list. A semaphore is a number, and what it has left stands in `free`.
pub mod Slots
pub mod Capacity
pub mod Bounded
mod Tests
use concierge_agent.Prelude.{
  ℕ, suc, ◌+◌, ◌-◌, Bool, true, false, not, ◌&&◌, Option, none, some, List, [], ◌∷◌, max, leb,
  length, if◌then◌else◌, ◌==◌, nat_eq, contains, select,
}
use concierge_agent.Prelude.Clock.{Instant}
use concierge_agent.Ambient.Events.{Uuid}

abbrev pub Semaphore : Type 0
Semaphore = ℕ

pub record Admission : Type 0 where
  pub running : List Uuid
  pub queued : List Uuid
  pub accepting : Bool
  pub draining_since : Option Instant
  pub semaphore : Option Semaphore
  pub semaphore_size : ℕ
  pub free : Semaphore → ℕ
  pub built : ℕ  -- the semaphores built so far

-- The two settings; `none` is an absent value, which like 0 takes the default.
pub record RunSettings : Type 0 where
  pub run_max_concurrent : Option ℕ
  pub run_queue_max : Option ℕ

abbrev value_or : Option ℕ → ℕ → ℕ
value_or none d = d
value_or (some n) d = if n == 0 then d else n

-- _limits_from
unfoldable pub limits_from : RunSettings → ℕ × ℕ
limits_from s = (max (value_or s.run_max_concurrent 8) 1, max (value_or s.run_queue_max 0) 0)

pub reset : Admission → Admission
reset a = record a {
  running = [];
  queued = [];
  accepting = true;
  draining_since = none;
  semaphore = none;
  semaphore_size = 0;
}

unfoldable pub set_accepting : Bool → Instant → Admission → Admission
set_accepting true now a = record a { accepting = true; draining_since = none }
set_accepting false now a = record a {
  accepting = false;
  draining_since = elim a.draining_since [ none ↦ some now | some since ↦ some since ];
}

unfoldable pub begin_drain : Instant → Admission → Admission
unfolding set_accepting
begin_drain now a = set_accepting false now a

abbrev pub update : (Semaphore → ℕ) → Semaphore → ℕ → Semaphore → ℕ
update f s n t = if t == s then n else f t

-- asyncio.Semaphore(n)
unfoldable pub build_semaphore : ℕ → Admission → Admission
build_semaphore n a = record a {
  semaphore = some a.built;
  semaphore_size = n;
  free = update a.free a.built n;
  built = suc a.built;
}

abbrev pub is_empty : List Uuid → Bool
is_empty [] = true
is_empty (x ∷ xs) = false

-- _get_semaphore: the semaphore, and the state after.
unfoldable pub get_semaphore : ℕ → Admission → Semaphore × Admission
unfolding build_semaphore
get_semaphore n a = elim a.semaphore [
  | none ↦ (a.built, build_semaphore n a)
  | some s ↦
      if not (a.semaphore_size == n) && is_empty a.running
      then (a.built, build_semaphore n a)
      else (s, a)
]

-- set.add and set.discard
abbrev pub add : Uuid → List Uuid → List Uuid
add x xs = if contains x xs then xs else x ∷ xs

abbrev pub discard : Uuid → List Uuid → List Uuid
discard x xs = select (λ y. not (y == x)) xs

pub data Gate : Type 0 where
  admitted : Gate
  at_capacity : ℕ → Gate  -- retry_after_s

unfoldable pub check_admission : RunSettings → Bool → Admission → Gate
unfolding limits_from
check_admission settings shed_if_full a =
    if not a.accepting
    then at_capacity 10
    else if not shed_if_full
    then admitted
    else if leb (limits_from settings).0 (length a.running)
        && leb (limits_from settings).1 (length a.queued)
    then at_capacity 5
    else admitted

-- `slot` up to `sem.acquire()`: the semaphore it waits on, and the state.
unfoldable pub enter_slot : Uuid → RunSettings → Admission → Semaphore × Admission
unfolding get_semaphore limits_from
enter_slot run settings a =
    let (s, b) = get_semaphore (limits_from settings).0 a in
    (s, record b { queued = add run b.queued })

-- `slot` where `sem.acquire()` raises: the wait was cancelled.
unfoldable pub abandon_slot : Uuid → Admission → Admission
abandon_slot run a = record a { queued = discard run a.queued }

-- `slot` where `sem.acquire()` returns.
unfoldable pub hold_slot : Uuid → Semaphore → Admission → Admission
hold_slot run s a = record a {
  queued = discard run a.queued;
  running = add run a.running;
  free = update a.free s (a.free s - 1);
}

-- `slot` on leaving its body, in whichever way.
unfoldable pub leave_slot : Uuid → Semaphore → Admission → Admission
leave_slot run s a = record a {
  running = discard run a.running;
  free = update a.free s (suc (a.free s));
}
