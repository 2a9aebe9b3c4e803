-- ===== src/Memory/Jobs.antt =====
-- The periodic jobs and their clock (backend/app/jobclock.py; gate_open, _due, run_due_jobs and
-- maybe_run_overlap_audit of backend/app/memory/lifecycle.py). What a job does, whether its advisory
-- lock is free, and the settings are inputs.
pub mod Once
pub mod Due
mod Tests
use concierge_agent.Prelude.{
  ℕ, ◌-◌, ◌*◌, String, Bool, true, false, not, ◌&&◌, Option, none, some, List, [], ◌∷◌, ◌++◌, leb,
  if◌then◌else◌, ◌==◌, nat_eq, string_eq,
}
use concierge_agent.Prelude.Clock.{Instant, seconds}
use concierge_agent.Settings.Value.{
  Value, null, str, bool, int, negative, float, arr, obj, no_items, push, no_fields, with_field,
}

-- The table job_clock.
abbrev pub JobClock : Type 0
JobClock = List (String × Instant)

unfoldable pub last_run : String → JobClock → Option Instant
last_run job [] = none
last_run job ((name, at) ∷ rest) =
    let later = last_run job rest in if name == job then some at else later

unfoldable pub job_due : String → ℕ → Instant → JobClock → Bool
unfolding last_run
job_due job interval_s now clock = elim (last_run job clock) [
  | none ↦ true
  | some last ↦ leb last now && leb (seconds interval_s) (now - last)
]

-- An insert, or an update of the row with the key.
unfoldable pub job_ran : String → Instant → JobClock → JobClock
job_ran job now [] = (job, now) ∷ []
job_ran job now ((name, at) ∷ rest) =
    let later = job_ran job now rest in
    if name == job then (name, now) ∷ rest else (name, at) ∷ later

pub data Job : Type 0 where
  decay reflect contradict mine compact communities backfill extract_tune : Job
  overlap_audit exemplar_settle : Job

unfoldable pub job_gates : Job → String
job_gates decay = "memory_decay_enabled"
job_gates reflect = "memory_reflection_enabled"
job_gates contradict = "memory_contradiction_enabled"
job_gates mine = "procedural_learning_enabled"
job_gates compact = "memory_compaction_enabled"
job_gates communities = "memory_communities_enabled"
job_gates backfill = "embedding_model"
job_gates extract_tune = "memory_extraction_learning"
job_gates overlap_audit = "registry_overlap_audit_enabled"
job_gates exemplar_settle = "procedural_learning_enabled"

-- In seconds.
unfoldable pub intervals_s : Job → ℕ
intervals_s decay = 6 * 3600
intervals_s reflect = 3600
intervals_s contradict = 24 * 3600
intervals_s mine = 12 * 3600
intervals_s compact = 6 * 3600
intervals_s communities = 3600
intervals_s backfill = 3600
intervals_s extract_tune = 3600
intervals_s overlap_audit = 6 * 3600
intervals_s exemplar_settle = 300

unfoldable pub job_names : Job → String
job_names decay = "memory:decay"
job_names reflect = "memory:reflect"
job_names contradict = "memory:contradict"
job_names mine = "memory:mine"
job_names compact = "memory:compact"
job_names communities = "memory:communities"
job_names backfill = "memory:backfill"
job_names extract_tune = "memory:extract_tune"
job_names overlap_audit = "registry:overlap_audit"
job_names exemplar_settle = "memory:exemplar_settle"

-- A text is open unless it is "off", another value if it is true.
unfoldable pub gate_open : Value → Bool
gate_open (str s) = not (s == "off")
gate_open null = false
gate_open (bool b) = b
gate_open (int n) = not (n == 0)
gate_open (negative n) = true
gate_open (float sign m k) = not (m == 0)
gate_open (arr no_items) = false
gate_open (arr (push x xs)) = true
gate_open (obj no_fields) = false
gate_open (obj (with_field k v rest)) = true

-- int(budget or 0) > 0; the settings accept integers only.
has_budget : Value → Bool
has_budget (int n) = not (n == 0)
has_budget (bool b) = b
has_budget _ = false

-- What one tick meets. An outcome of none stands for an exception.
pub record Tick : Type 0 where
  pub setting : String → Value
  pub now : Instant
  pub is_free : Job → Bool
  pub outcome : Job → Option ℕ

abbrev pub is_due : Tick → Job → JobClock → Bool
is_due t job clock = job_due (job_names job) (intervals_s job) t.now clock

-- A budget of zero switches the communities off.
unfoldable pub is_switched_on : Tick → Job → Bool
unfolding gate_open job_gates has_budget
is_switched_on t communities =
    gate_open (t.setting (job_gates communities))
    && has_budget (t.setting "memory_community_budget_tokens")
is_switched_on t job = gate_open (t.setting (job_gates job))

-- The results of a tick so far, and the clock.
abbrev pub Ticked : Type 0
Ticked = List (Job × ℕ) × JobClock

unfoldable pub finish : Tick → Job → Option ℕ → Ticked → Ticked
unfolding job_ran job_names
finish t job none s = s
finish t job (some n) (results, clock) =
    (results ++ (job, n) ∷ [], job_ran (job_names job) t.now clock)

-- A job that is due, under its lock.
unfoldable pub run_if : Bool → Tick → Job → Ticked → Ticked
unfolding finish job_due job_names intervals_s
run_if on t job s =
    if on && is_due t job s.1 && t.is_free job then finish t job (t.outcome job) s else s

unfoldable pub run_jobs : Tick → List Job → Ticked → Ticked
unfolding run_if is_switched_on
run_jobs t [] s = s
run_jobs t (job ∷ rest) s = run_jobs t rest (run_if (is_switched_on t job) t job s)

abbrev pub jobs : List Job
jobs =
    decay ∷ reflect ∷ contradict ∷ compact ∷ communities ∷ backfill ∷ extract_tune ∷ exemplar_settle
    ∷ []

-- The miner reads its gate itself.
unfoldable pub run_due_jobs : Tick → JobClock → Ticked
unfolding run_jobs run_if gate_open
run_due_jobs t clock =
    if gate_open (t.setting "memory_enabled")
    then run_if true t mine (run_jobs t jobs ([], clock))
    else ([], clock)

unfoldable pub maybe_run_overlap_audit : Tick → JobClock → Ticked
unfolding run_if is_switched_on
maybe_run_overlap_audit t clock =
    run_if (is_switched_on t overlap_audit) t overlap_audit ([], clock)

-- The calls that the loops of the replicas make, in whatever order.
pub data Call : Type 0 where
  due_jobs overlap : Tick → Call

abbrev pub tick_of : Call → Tick
tick_of (due_jobs t) = t
tick_of (overlap t) = t

unfoldable pub run_call : Call → JobClock → Ticked
unfolding run_due_jobs maybe_run_overlap_audit
run_call (due_jobs t) clock = run_due_jobs t clock
run_call (overlap t) clock = maybe_run_overlap_audit t clock

unfoldable pub run_calls : List Call → JobClock → List (List (Job × ℕ)) × JobClock
unfolding run_call
run_calls [] clock = ([], clock)
run_calls (c ∷ rest) clock =
    let (results, next) = run_call c clock in
    let (later, last) = run_calls rest next in (results ∷ later, last)
