-- ===== src/Memory/Jobs/Once.antt =====
-- A job runs once in its interval.
use concierge_agent.Prelude.{
  ℕ, ◌+◌, ◌-◌, ◌<◌, ◌≡◌, refl, sym, ap, subst, ◌∙◌, String, Bool, true, false, true≢false, ◌&&◌,
  ◌||◌, Option, none, some, List, [], ◌∷◌, ◌++◌, inl, inr, All, any_where, leb, if◌then◌else◌,
  if-both, Bool-cases, ◌==◌, ==_eq, ==_refl, &&-true, some-inj, nat_eq, string_eq, arith,
}
use concierge_agent.Prelude.Clock.{Instant, seconds}
use concierge_agent.Memory.Jobs.{
  JobClock, last_run, job_due, job_ran, Job, decay, reflect, contradict, mine, compact, communities,
  backfill, extract_tune, overlap_audit, exemplar_settle, intervals_s, job_names, gate_open, Tick,
  is_due, is_switched_on, Ticked, finish, run_if, run_jobs, jobs, run_due_jobs,
  maybe_run_overlap_audit, Call, due_jobs, overlap, tick_of, run_call, run_calls,
}

pub last_run-job_ran :
    (n : String) (now : Instant) (clock : JobClock) → last_run n (job_ran n now clock) ≡ some now
unfolding last_run job_ran
last_run-job_ran n now [] = rw (==_refl n) refl
last_run-job_ran n now ((m, at) ∷ rest) = elim (Bool-cases (m == n)) [
  | inl same ↦ rw (same, same) refl
  | inr other ↦ rw (other, other) (last_run-job_ran n now rest)
]

pub last_run-other :
    (n m : String) (now : Instant) (clock : JobClock)
    → (n == m) ≡ false
    → last_run m (job_ran n now clock) ≡ last_run m clock
unfolding last_run job_ran
last_run-other n m now [] h = rw h refl
last_run-other n m now ((k, at) ∷ rest) h = elim (Bool-cases (k == n)) [
  | inl same ↦ rw (same, ==_eq k n same, h) refl
  | inr other ↦ rw (other, last_run-other n m now rest h) refl
]

-- The job that has a name.
job_named : String → Option Job
job_named name =
    if name == "memory:decay"
    then some decay
    else if name == "memory:reflect"
    then some reflect
    else if name == "memory:contradict"
    then some contradict
    else if name == "memory:mine"
    then some mine
    else if name == "memory:compact"
    then some compact
    else if name == "memory:communities"
    then some communities
    else if name == "memory:backfill"
    then some backfill
    else if name == "memory:extract_tune"
    then some extract_tune
    else if name == "registry:overlap_audit"
    then some overlap_audit
    else some exemplar_settle

job_named-job_names : (job : Job) → job_named (job_names job) ≡ some job
unfolding job_named job_names
job_named-job_names decay = refl
job_named-job_names reflect = refl
job_named-job_names contradict = refl
job_named-job_names mine = refl
job_named-job_names compact = refl
job_named-job_names communities = refl
job_named-job_names backfill = refl
job_named-job_names extract_tune = refl
job_named-job_names overlap_audit = refl
job_named-job_names exemplar_settle = refl

pub job_names-inj : (j k : Job) → job_names j ≡ job_names k → j ≡ k
job_names-inj j k e =
    some-inj j k (sym (job_named-job_names j) ∙ ap job_named e ∙ job_named-job_names k)

-- The results have one of the job.
abbrev pub has_result : Job → List (Job × ℕ) → Bool
has_result job results = any_where (λ e. job_names e.0 == job_names job) results

if-or : (a r b : Bool) → (if a then true else (r || b)) ≡ ((if a then true else r) || b)
if-or true r b = refl
if-or false r b = refl

if-true : (b : Bool) → (if b then true else false) ≡ b
if-true true = refl
if-true false = refl

pub has_result-append :
    (job k : Job) (n : ℕ) (results : List (Job × ℕ))
    → has_result job (results ++ (k, n) ∷ [])
      ≡ (has_result job results || job_names k == job_names job)
has_result-append job k n [] = if-true (job_names k == job_names job)
has_result-append job k n ((i, m) ∷ rest) =
    rw (has_result-append job k n rest) (if-or (job_names i == job_names job) _ _)

abbrev pub Ran : Job → Instant → JobClock → Type 0
Ran job at clock = last_run (job_names job) clock ≡ some at

waits : (last now span : ℕ) → now < last + span → (leb last now && leb span (now - last)) ≡ false
waits last now span soon = ground arith

early :
    (name : String) (i : ℕ) (now at : Instant) (clock : JobClock)
    → last_run name clock ≡ some at
    → now < at + seconds i
    → job_due name i now clock ≡ false
unfolding job_due
early name i now at clock ran soon = rw (ran, job_due) (waits at now (seconds i) soon)

not_due :
    (t : Tick) (job : Job) (at : Instant) (clock : JobClock)
    → Ran job at clock
    → t.now < at + seconds (intervals_s job)
    → is_due t job clock ≡ false
not_due t job at clock ran soon = early (job_names job) (intervals_s job) t.now at clock ran soon

module _ (job : Job) (at : Instant) where
  -- The job ran lately, and has no result here.
  abbrev Rests : Ticked → Type 0
  Rests s = (has_result job s.0 ≡ false) × Ran job at s.1

  finish-Rests :
      (t : Tick) (k : Job) (outcome : Option ℕ) (s : Ticked)
      → (job_names k == job_names job) ≡ false
      → Rests s
      → Rests (finish t k outcome s)
  unfolding finish
  finish-Rests t k none s other h = h
  finish-Rests t k (some n) (results, clock) other h = (
    has_result-append job k n results ∙ rw (h.0, other) refl,
    last_run-other (job_names k) (job_names job) t.now clock other ∙ h.1,
  )

  run_if-Rests :
      (on : Bool) (t : Tick) (k : Job) (s : Ticked)
      → t.now < at + seconds (intervals_s job)
      → Rests s
      → Rests (run_if on t k s)
  unfolding run_if
  run_if-Rests on t k s soon h =
      if-both Rests (on && is_due t k s.1 && t.is_free k) _ _
        (λ starts. elim (Bool-cases (job_names k == job_names job)) [
          | inr other ↦ finish-Rests t k (t.outcome k) s other h
          | inl same ↦
              let idle = not_due t job at s.1 h.1 soon in
              let e = job_names-inj k job (==_eq (job_names k) (job_names job) same) in
              let (early, _) = &&-true (on && is_due t k s.1) (t.is_free k) starts in
              let (_, due) = &&-true on (is_due t k s.1) early in
              absurd (true≢false (sym (subst (λ j. is_due t j s.1 ≡ true) e due) ∙ idle))
        ])
        (λ other. h)

  run_jobs-Rests :
      (t : Tick) (ks : List Job) (s : Ticked)
      → t.now < at + seconds (intervals_s job)
      → Rests s
      → Rests (run_jobs t ks s)
  unfolding run_jobs
  run_jobs-Rests t [] s soon h = h
  run_jobs-Rests t (k ∷ ks) s soon h =
      run_jobs-Rests t ks _ soon (run_if-Rests (is_switched_on t k) t k s soon h)

  run_call-Rests :
      (c : Call) (clock : JobClock)
      → (tick_of c).now < at + seconds (intervals_s job)
      → Ran job at clock
      → Rests (run_call c clock)
  unfolding run_call run_due_jobs maybe_run_overlap_audit
  run_call-Rests (due_jobs t) clock soon h =
      if-both Rests (gate_open (t.setting "memory_enabled")) _ _
        (λ on. run_if-Rests true t mine _ soon (run_jobs-Rests t jobs ([], clock) soon (refl, h)))
        (λ off. (refl, h))
  run_call-Rests (overlap t) clock soon h =
      run_if-Rests _ t overlap_audit ([], clock) soon (refl, h)

  pub run_calls-none :
      (cs : List Call) (clock : JobClock)
      → All (λ c. (tick_of c).now < at + seconds (intervals_s job)) cs
      → Ran job at clock
      → All (λ results. has_result job results ≡ false) ((run_calls cs clock).0)
  unfolding run_calls
  run_calls-none [] clock soon h = tt
  run_calls-none (c ∷ cs) clock soon h =
      let (idle, ran) = run_call-Rests c clock soon.0 h in (idle, run_calls-none cs _ soon.1 ran)
