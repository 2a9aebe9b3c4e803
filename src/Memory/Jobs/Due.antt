-- ===== src/Memory/Jobs/Due.antt =====
-- A job that has a result ran now, and a job that is due runs.
use concierge_agent.Prelude.{
  ℕ, ◌+◌, ◌<◌, ◌≡◌, refl, sym, ap, subst, ◌∙◌, Bool, true, false, true≢false, ◌&&◌, ◌||◌, Option,
  none, some, List, [], ◌∷◌, ◌++◌, inl, inr, All, IsIn, if-both, Bool-cases, ◌==◌, ==_eq, ==_refl,
  ==_ne, string_eq,
}
use concierge_agent.Prelude.Clock.{seconds}
use concierge_agent.Memory.Jobs.{
  JobClock, last_run, job_due, job_ran, Job, mine, overlap_audit, intervals_s, job_names, gate_open,
  Tick, is_due, is_switched_on, Ticked, finish, run_if, run_jobs, jobs, run_due_jobs,
  maybe_run_overlap_audit, Call, due_jobs, overlap, tick_of, run_call, run_calls,
}
use concierge_agent.Memory.Jobs.Once.{
  last_run-job_ran, last_run-other, job_names-inj, has_result, has_result-append, Ran,
  run_calls-none,
}

or-left : (a b : Bool) → b ≡ false → (a || b) ≡ true → a ≡ true
or-left true b h k = refl
or-left false b h k = absurd (true≢false (sym k ∙ h))

module _ (job : Job) (t : Tick) where
  -- A result of the job is a run at the time of the tick.
  abbrev IsTimed : Ticked → Type 0
  IsTimed s = has_result job s.0 ≡ true → Ran job t.now s.1

  finish-IsTimed :
      (k : Job) (outcome : Option ℕ) (s : Ticked) → IsTimed s → IsTimed (finish t k outcome s)
  unfolding finish
  finish-IsTimed k none s h = h
  finish-IsTimed k (some n) (results, clock) h = λ found.
      elim (Bool-cases (job_names k == job_names job)) [
        | inl same ↦
            subst (λ name. last_run (job_names job) (job_ran name t.now clock) ≡ some t.now)
              (sym (==_eq (job_names k) (job_names job) same))
              (last_run-job_ran (job_names job) t.now clock)
        | inr other ↦
            last_run-other (job_names k) (job_names job) t.now clock other
            ∙ h (
                or-left (has_result job results) _ other
                  (sym (has_result-append job k n results) ∙ found))
      ]

  run_if-IsTimed : (on : Bool) (k : Job) (s : Ticked) → IsTimed s → IsTimed (run_if on t k s)
  unfolding run_if
  run_if-IsTimed on k s h =
      if-both IsTimed (on && is_due t k s.1 && t.is_free k) _ _
        (λ starts. finish-IsTimed k (t.outcome k) s h) (λ other. h)

  run_jobs-IsTimed : (ks : List Job) (s : Ticked) → IsTimed s → IsTimed (run_jobs t ks s)
  unfolding run_jobs
  run_jobs-IsTimed [] s h = h
  run_jobs-IsTimed (k ∷ ks) s h = run_jobs-IsTimed ks _ (run_if-IsTimed (is_switched_on t k) k s h)

  empty-IsTimed : (clock : JobClock) → IsTimed ([], clock)
  empty-IsTimed clock h = absurd (true≢false (sym h))

timed :
    (job : Job) (c : Call) (clock : JobClock)
    → has_result job ((run_call c clock).0) ≡ true
    → Ran job (tick_of c).now ((run_call c clock).1)
unfolding run_call run_due_jobs maybe_run_overlap_audit
timed job (due_jobs t) clock =
    if-both (IsTimed job t) (gate_open (t.setting "memory_enabled")) _ _
      (λ on.
        run_if-IsTimed job t true mine _
          (run_jobs-IsTimed job t jobs _ (empty-IsTimed job t clock)))
      (λ off. empty-IsTimed job t clock)
timed job (overlap t) clock =
    run_if-IsTimed job t (is_switched_on t overlap_audit) overlap_audit _
      (empty-IsTimed job t clock)

-- Of calls of the loops that are made one after the other, on whatever replicas and whatever their
-- settings: if a job ran in one, it does not run in those that follow until its interval has passed
-- since the time of that call.
pub once_in_interval :
    (job : Job) (c : Call) (clock : JobClock) (cs : List Call)
    → has_result job ((run_call c clock).0) ≡ true
    → All (λ d. (tick_of d).now < (tick_of c).now + seconds (intervals_s job)) cs
    → All (λ results. has_result job results ≡ false) ((run_calls cs ((run_call c clock).1)).0)
once_in_interval job c clock cs ran soon =
    run_calls-none job (tick_of c).now cs ((run_call c clock).1) soon (timed job c clock ran)

-- What lets a job run.
pub record IsReady (t : Tick) (job : Job) (clock : JobClock) : Type 0 where
  pub on : is_switched_on t job ≡ true
  pub due : is_due t job clock ≡ true
  pub free : t.is_free job ≡ true
  pub ends : (n : ℕ) × (t.outcome job ≡ some n)

or-true : (b : Bool) → (b || true) ≡ true
or-true true = refl
or-true false = refl

module _ (job : Job) (t : Tick) where
  append-stays :
      (k : Job) (n : ℕ) (results : List (Job × ℕ))
      → has_result job results ≡ true
      → has_result job (results ++ (k, n) ∷ []) ≡ true
  append-stays k n results h = has_result-append job k n results ∙ rw h refl

  finish-stays :
      (k : Job) (outcome : Option ℕ) (s : Ticked)
      → has_result job s.0 ≡ true
      → has_result job ((finish t k outcome s).0) ≡ true
  unfolding finish
  finish-stays k none s h = h
  finish-stays k (some n) (results, clock) h = append-stays k n results h

  run_if-stays :
      (on : Bool) (k : Job) (s : Ticked)
      → has_result job s.0 ≡ true
      → has_result job ((run_if on t k s).0) ≡ true
  unfolding run_if
  run_if-stays on k s h =
      if-both (λ (o : Ticked). has_result job o.0 ≡ true) (on && is_due t k s.1 && t.is_free k) _ _
        (λ a. finish-stays k (t.outcome k) s h) (λ a. h)

  run_jobs-stays :
      (ks : List Job) (s : Ticked)
      → has_result job s.0 ≡ true
      → has_result job ((run_jobs t ks s).0) ≡ true
  unfolding run_jobs
  run_jobs-stays [] s h = h
  run_jobs-stays (k ∷ ks) s h = run_jobs-stays ks _ (run_if-stays (is_switched_on t k) k s h)

  finish-has : (n : ℕ) (s : Ticked) → has_result job ((finish t job (some n) s).0) ≡ true
  unfolding finish
  finish-has n (results, clock) =
      has_result-append job job n results
      ∙ rw (==_refl (job_names job)) (or-true (has_result job results))

  run_if-has :
      (s : Ticked)
      → IsReady t job s.1
      → has_result job ((run_if (is_switched_on t job) t job s).0) ≡ true
  unfolding run_if
  run_if-has s r = let (n, e) = r.ends in rw (r.on, r.due, r.free, e) (finish-has n s)

  finish-due :
      (k : Job) (outcome : Option ℕ) (s : Ticked)
      → (job_names k == job_names job) ≡ false
      → is_due t job ((finish t k outcome s).1) ≡ is_due t job s.1
  unfolding finish job_due
  finish-due k none s other = refl
  finish-due k (some n) (results, clock) other =
      rw (last_run-other (job_names k) (job_names job) t.now clock other, job_due) refl

  run_if-due :
      (on : Bool) (k : Job) (s : Ticked)
      → (job_names k == job_names job) ≡ false
      → is_due t job ((run_if on t k s).1) ≡ is_due t job s.1
  unfolding run_if
  run_if-due on k s other =
      if-both (λ (o : Ticked). is_due t job o.1 ≡ is_due t job s.1)
        (on && is_due t k s.1 && t.is_free k) _ _ (λ a. finish-due k (t.outcome k) s other)
        (λ a. refl)

  in_rest :
      (k : Job) (ks : List Job)
      → IsIn job (k ∷ ks)
      → (job_names k == job_names job) ≡ false
      → IsIn job ks
  in_rest k ks (inr at) other = at
  in_rest k ks (inl e) other =
      absurd (==_ne (job_names k) (job_names job) other (ap job_names (sym e)))

  run_jobs-has :
      (ks : List Job) (s : Ticked)
      → IsIn job ks
      → IsReady t job s.1
      → has_result job ((run_jobs t ks s).0) ≡ true
  unfolding run_jobs
  run_jobs-has [] s at r = absurd at
  run_jobs-has (k ∷ ks) s at r = elim (Bool-cases (job_names k == job_names job)) [
    | inl same ↦
        let e = sym (job_names-inj k job (==_eq (job_names k) (job_names job) same)) in
        run_jobs-stays ks _ (
          subst (λ j. has_result job ((run_if (is_switched_on t j) t j s).0) ≡ true) e
            (run_if-has s r))
    | inr other ↦ run_jobs-has ks _ (in_rest k ks at other) (record {
      on = r.on;
      due = run_if-due (is_switched_on t k) k s other ∙ r.due;
      free = r.free;
      ends = r.ends;
    })
  ]

  -- Where the memory is switched on, each job of the loop that is switched on and due, whose lock is
  -- free and which does not raise, runs in the tick, whatever the other jobs do.
  pub ready_runs :
      (clock : JobClock)
      → gate_open (t.setting "memory_enabled") ≡ true
      → IsIn job jobs
      → IsReady t job clock
      → has_result job ((run_due_jobs t clock).0) ≡ true
  unfolding run_due_jobs
  ready_runs clock on at r =
      rw (on, run_due_jobs)
        (run_if-stays true mine (run_jobs t jobs ([], clock)) (run_jobs-has jobs ([], clock) at r))
