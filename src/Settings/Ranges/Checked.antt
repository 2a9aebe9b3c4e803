-- ===== src/Settings/Ranges/Checked.antt =====
-- What the tests of the integer settings let pass (backend/app/settings_store.py).
use mathlib.Core.Bool.{true≢false}
use concierge_agent.Prelude.{
  ℕ, ◌≡◌, ◌≢◌, refl, sym, String, Bool, true, false, not, none, some, [], ◌∷◌, leb, leb→le,
  if◌then◌else◌, string_eq, All, &&-true,
}
use concierge_agent.Settings.Value.{Value, bool, int, is_bool, is_at_least, is_between}
use concierge_agent.Settings.Parts.{invalid, World, messages, passed, require, is_count}
use concierge_agent.Settings.Check.{check_setting, check_middle, check_late}
use concierge_agent.Settings.Ranges.{Range, IsWithin, as_int, as_bool, ranges}

invalid-ne : (key : String) → messages (invalid key ∷ []) ≢ passed
invalid-ne key h = cc

require-passed : (key : String) (ok : Bool) → require key ok ≡ passed → ok ≡ true
require-passed key true h = refl
require-passed key false h = absurd (invalid-ne key h)

pub at_least-IsWithin : (low : ℕ) (v : Value) → is_at_least low v ≡ true → IsWithin low none v
at_least-IsWithin low (int n) h = as_int n refl (leb→le low n h) tt
at_least-IsWithin low (bool b) h = as_bool b refl (leb→le low (if b then 1 else 0) h) tt
at_least-IsWithin low _ h = absurd (true≢false (sym h))

pub between-IsWithin :
    (low high : ℕ) (v : Value) → is_between low high v ≡ true → IsWithin low (some high) v
between-IsWithin low high (int n) h =
    let (a, b) = &&-true (leb low n) (leb n high) h in
    as_int n refl (leb→le low n a) (leb→le n high b)
between-IsWithin low high (bool b) h =
    let m = if b then 1 else 0 in
    let (p, q) = &&-true (leb low m) (leb m high) h in
    as_bool b refl (leb→le low m p) (leb→le m high q)
between-IsWithin low high _ h = absurd (true≢false (sym h))

module _ (world : World) where
  -- Whatever passes the test of its key is in the range.
  abbrev pub IsChecked : Range → Type 0
  IsChecked range =
      (v : Value) → check_setting world range.key v ≡ passed → IsWithin range.low range.high v

  at_least :
      (key : String) (low : ℕ) (v : Value)
      → require key (is_at_least low v) ≡ passed
      → IsWithin low none v
  at_least key low v h = at_least-IsWithin low v (require-passed key (is_at_least low v) h)

  between :
      (key : String) (low high : ℕ) (v : Value)
      → require key (is_between low high v) ≡ passed
      → IsWithin low (some high) v
  between key low high v h =
      between-IsWithin low high v (require-passed key (is_between low high v) h)

  count :
      (key : String) (low high : ℕ) (v : Value)
      → require key (is_count low high v) ≡ passed
      → IsWithin low (some high) v
  count key low high v h =
      between-IsWithin low high v
        (&&-true (is_between low high v) (not (is_bool v))
          (require-passed key (is_count low high v) h)).0

  pub ranges-IsChecked : All IsChecked ranges
  unfolding check_setting check_middle check_late
  ranges-IsChecked = (
    between "formatter_coverage_flag_threshold" 1 100,
    (
      at_least "a2a_max_parked" 0,
      (
        at_least "ambient_tick_interval_s" 15,
        (
          between "overlap_threshold_percent" 0 100,
          (
            at_least "run_stall_after_s" 60,
            (
              between "agentic_recursion_limit" 10 500,
              (
                at_least "a2a_fence_max_chars" 500,
                (
                  at_least "max_parallel_dispatch" 1,
                  (
                    at_least "max_plan_steps" 1,
                    (
                      at_least "max_tool_iterations" 1,
                      (
                        at_least "direct_exposure_cap_warning" 1,
                        (
                          at_least "mcp_health_interval_s" 1,
                          (
                            at_least "retrieval_threshold" 1,
                            (
                              at_least "retrieval_top_k" 1,
                              (
                                at_least "memory_injection_budget_tokens" 1,
                                (
                                  at_least "memory_pinned_budget_tokens" 1,
                                  (
                                    at_least "memory_recall_top_k" 1,
                                    (
                                      at_least "memory_idle_minutes" 1,
                                      (
                                        at_least "memory_digest_compact_days" 1,
                                        (
                                          at_least "ambient_max_routines" 1,
                                          (
                                            at_least "ambient_runs_per_day" 1,
                                            (
                                              at_least "ambient_routine_events_per_hour" 1,
                                              (
                                                at_least "ambient_idle_minutes" 1,
                                                (
                                                  at_least "ambient_hitl_timeout_h" 1,
                                                  (
                                                    at_least "ambient_notification_budget_per_day"
                                                        1,
                                                    (
                                                      at_least "ambient_interrupt_threshold" 1,
                                                      (
                                                        at_least
                                                            "ambient_wakeups_per_routine_per_day" 1,
                                                        (
                                                          at_least
                                                            "ambient_escalation_budget_per_day" 1,
                                                          (
                                                            at_least "a2a_card_refresh_interval_s"
                                                            1,
                                                            (
                                                            at_least "a2a_task_timeout_s" 1,
                                                            (
                                                            at_least "a2a_poll_interval_s" 1,
                                                            (
                                                            at_least "rate_limit_burst" 1,
                                                            (
                                                            at_least "rate_limit_per_s" 1,
                                                            (
                                                            at_least "a2a_http_timeout_s" 1,
                                                            (
                                                            count "ambient_salience_min_urgency" 1
                                                            5,
                                                            (
                                                            count "run_max_concurrent" 1 64,
                                                            (
                                                            count "run_queue_max" 0 500,
                                                            (
                                                            count "run_wall_clock_s" 30 86400,
                                                            (
                                                            at_least
                                                            "memory_community_budget_tokens" 0,
                                                            (
                                                            count "retention_ambient_events_days" 1
                                                            3650,
                                                            (
                                                            count "retention_deliveries_days" 1
                                                            3650,
                                                            (
                                                            count "retention_ambient_policies_days"
                                                            1 3650,
                                                            (
                                                            count "retention_pattern_instances_days"
                                                            1 3650,
                                                            (
                                                            count "retention_a2a_tasks_days" 1 3650,
                                                            (
                                                            count "retention_auth_sessions_days" 1
                                                            3650,
                                                            (
                                                            count "mcp_reconnect_max_attempts" 1
                                                            100,
                                                            tt,
                                                            ),
                                                            ),
                                                            ),
                                                            ),
                                                            ),
                                                            ),
                                                            ),
                                                            ),
                                                            ),
                                                            ),
                                                            ),
                                                            ),
                                                            ),
                                                            ),
                                                            ),
                                                            ),
                                                            ),
                                                          ),
                                                        ),
                                                      ),
                                                    ),
                                                  ),
                                                ),
                                              ),
                                            ),
                                          ),
                                        ),
                                      ),
                                    ),
                                  ),
                                ),
                              ),
                            ),
                          ),
                        ),
                      ),
                    ),
                  ),
                ),
              ),
            ),
          ),
        ),
      ),
    ),
  )
