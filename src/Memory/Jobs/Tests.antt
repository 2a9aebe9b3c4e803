-- ===== src/Memory/Jobs/Tests.antt =====
-- Two ticks of the periodic jobs (backend/app/memory/lifecycle.py).
use concierge_agent.Prelude.{ℕ, ◌+◌, ◌<◌, ◌≡◌, refl, true, false, some, [], ◌∷◌, inl, All, arith}
use concierge_agent.Prelude.Clock.{seconds, hours}
use concierge_agent.Settings.Value.{bool}
use concierge_agent.Memory.Jobs.{
  decay, reflect, intervals_s, is_switched_on, Tick, due_jobs, run_due_jobs, run_call, run_calls,
  gate_open, job_due,
}
use concierge_agent.Memory.Jobs.Once.{has_result}
use concierge_agent.Memory.Jobs.Due.{IsReady, once_in_interval, ready_runs}

-- Everything is switched on, every lock is free, and each job reports one change.
abbrev tick : ℕ → Tick
tick h = record {
  setting = λ key. bool true;
  now = hours h;
  is_free = λ job. true;
  outcome = λ job. some 1;
}

decay_ran : has_result decay ((run_call (due_jobs (tick 10)) []).0) ≡ true
unfolding run_call
decay_ran = refl

soon : hours 12 < hours 10 + seconds (intervals_s decay)
unfolding intervals_s
soon = omega arith

reflect_ran_again :
    has_result reflect ((run_call (due_jobs (tick 12)) ((run_call (due_jobs (tick 10)) []).1)).0)
    ≡ true
unfolding run_call
reflect_ran_again = refl

once_in_interval_example :
    All
      (λ results. has_result decay results ≡ false)
      ((run_calls (due_jobs (tick 12) ∷ []) ((run_call (due_jobs (tick 10)) []).1)).0)
once_in_interval_example =
    once_in_interval decay (due_jobs (tick 10)) [] (due_jobs (tick 12) ∷ []) decay_ran (soon, tt)

ready : IsReady (tick 10) decay []
unfolding is_switched_on job_due
ready = record { on = refl; due = refl; free = refl; ends = (1, refl) }

memory_on : gate_open ((tick 10).setting "memory_enabled") ≡ true
unfolding gate_open
memory_on = refl

ready_runs_example : has_result decay ((run_due_jobs (tick 10) []).0) ≡ true
ready_runs_example = ready_runs decay (tick 10) [] memory_on (inl refl) ready
