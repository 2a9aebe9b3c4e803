-- ===== src/Settings/Runs.antt =====
-- The runs that the settings admit (backend/app/settings_store.py,
-- backend/app/orchestrator/admission.py).
use concierge_agent.Prelude.{
  ℕ, zero, suc, ◌≤◌, ◌≡◌, ◌≢◌, IsIn, refl, sym, ap, Option, none, some, List, [], ◌∷◌,
  if◌then◌else◌, All-IsIn, inl, inr, arith, length,
}
use concierge_agent.Settings.Value.{Value, bool, int}
use concierge_agent.Settings.Defaults.{Dict}
use concierge_agent.Settings.Update.{get, get_settings}
use concierge_agent.Settings.Ranges.{Range, IsWithin, as_int, as_bool, ranges}
use concierge_agent.Settings.Sound.{Request, after_requests, settings-IsSound}
use concierge_agent.Orchestrator.Admission.{RunSettings, limits_from}
use concierge_agent.Orchestrator.Admission.Slots.{System, Reach, initial}
use concierge_agent.Orchestrator.Admission.Bounded.{running_bounded}

-- What int(value) makes of an integer or a Boolean; these settings have no other values.
abbrev count_of : Value → Option ℕ
count_of (int n) = some n
count_of (bool b) = some (if b then 1 else 0)
count_of _ = none

-- The settings as the admission reads them.
abbrev pub run_settings : Dict → RunSettings
run_settings settings = record {
  run_max_concurrent = count_of (get settings "run_max_concurrent");
  run_queue_max = count_of (get settings "run_queue_max");
}

abbrev concurrency : Range
concurrency = record { key = "run_max_concurrent"; low = 1; high = some 64 }

limits-le :
    (settings : Dict) (v : Value)
    → get settings "run_max_concurrent" ≡ v
    → IsWithin 1 (some 64) v
    → (limits_from (run_settings settings)).0 ≤ 64
unfolding limits_from
limits-le settings v e (as_int n is low high) = rw (e, is, limits_from) ground arith
limits-le settings v e (as_bool b is low high) = rw (e, is, limits_from) ground arith

abbrev nth : ℕ → List Range → Option Range
nth n [] = none
nth zero (x ∷ xs) = some x
nth (suc n) (x ∷ xs) = nth n xs

value_of : Range → Option Range → Range
value_of d none = d
value_of d (some r) = r

none-ne : (r : Range) → none ≢ some r
none-ne r h = cc

nth-IsIn : (n : ℕ) (rs : List Range) (r : Range) → nth n rs ≡ some r → IsIn r rs
unfolding value_of
nth-IsIn zero [] r h = absurd (none-ne r h)
nth-IsIn (suc n) [] r h = absurd (none-ne r h)
nth-IsIn zero (x ∷ xs) r h = inl (sym (ap (value_of r) h))
nth-IsIn (suc n) (x ∷ xs) r h = inr (nth-IsIn n xs r h)

-- Whatever updates are requested, from an empty table on, at most 64 runs execute at once, in
-- whatever order the tasks step under the settings that are then read.
pub settings_bound_runs :
    (requests : List Request) (y : System)
    → Reach (run_settings (get_settings (after_requests requests []))) initial y
    → length y.state.running ≤ 64
settings_bound_runs requests y r =
    let settings = get_settings (after_requests requests []) in
    let at = nth-IsIn 35 ranges concurrency refl in
    let fits =
      All-IsIn (λ (range : Range). IsWithin range.low range.high (get settings range.key)) ranges
        concurrency (settings-IsSound requests) at in
    omega (
      arith,
      running_bounded (run_settings settings) y r,
      limits-le settings (get settings "run_max_concurrent") refl fits,
    )
