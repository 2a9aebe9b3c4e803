-- ===== src/Settings/Ranges.antt =====
-- The integers among the settings (backend/app/settings_store.py).
pub mod Checked
use mathlib.Core.Bool.{true≢false}
use concierge_agent.Prelude.{
  ℕ, ◌≤◌, ◌≡◌, ◌≢◌, refl, sym, String, Bool, true, false, not, Option, none, some, List, [], ◌∷◌,
  leb, leb→le, if◌then◌else◌, string_eq, All, &&-true,
}
use concierge_agent.Settings.Value.{Value, bool, int, is_bool, is_at_least, is_between}
use concierge_agent.Settings.Parts.{invalid, World, messages, passed, require, is_count}
use concierge_agent.Settings.Check.{check_setting, check_middle, check_late}

-- A key, with the least and the greatest value that it may have.
pub record Range : Type 0 where
  pub key : String
  pub low : ℕ
  pub high : Option ℕ

abbrev pub IsBelow : ℕ → Option ℕ → Type 0
IsBelow n none = Unit
IsBelow n (some high) = n ≤ high

-- An integer within the range; `isinstance(True, int)` holds, so that True counts as 1.
pub data IsWithin (low : ℕ) (high : Option ℕ) (v : Value) : Type 0 where
  as_int : (n : ℕ) → v ≡ int n → low ≤ n → IsBelow n high → IsWithin low high v
  as_bool :
      (b : Bool)
      → v ≡ bool b
      → low ≤ (if b then 1 else 0)
      → IsBelow (if b then 1 else 0) high
      → IsWithin low high v

abbrev pub ranges : List Range
ranges =
    (record { key = "formatter_coverage_flag_threshold"; low = 1; high = some 100 })
    ∷ (record { key = "a2a_max_parked"; low = 0; high = none })
    ∷ (record { key = "ambient_tick_interval_s"; low = 15; high = none })
    ∷ (record { key = "overlap_threshold_percent"; low = 0; high = some 100 })
    ∷ (record { key = "run_stall_after_s"; low = 60; high = none })
    ∷ (record { key = "agentic_recursion_limit"; low = 10; high = some 500 })
    ∷ (record { key = "a2a_fence_max_chars"; low = 500; high = none })
    ∷ (record { key = "max_parallel_dispatch"; low = 1; high = none })
    ∷ (record { key = "max_plan_steps"; low = 1; high = none })
    ∷ (record { key = "max_tool_iterations"; low = 1; high = none })
    ∷ (record { key = "direct_exposure_cap_warning"; low = 1; high = none })
    ∷ (record { key = "mcp_health_interval_s"; low = 1; high = none })
    ∷ (record { key = "retrieval_threshold"; low = 1; high = none })
    ∷ (record { key = "retrieval_top_k"; low = 1; high = none })
    ∷ (record { key = "memory_injection_budget_tokens"; low = 1; high = none })
    ∷ (record { key = "memory_pinned_budget_tokens"; low = 1; high = none })
    ∷ (record { key = "memory_recall_top_k"; low = 1; high = none })
    ∷ (record { key = "memory_idle_minutes"; low = 1; high = none })
    ∷ (record { key = "memory_digest_compact_days"; low = 1; high = none })
    ∷ (record { key = "ambient_max_routines"; low = 1; high = none })
    ∷ (record { key = "ambient_runs_per_day"; low = 1; high = none })
    ∷ (record { key = "ambient_routine_events_per_hour"; low = 1; high = none })
    ∷ (record { key = "ambient_idle_minutes"; low = 1; high = none })
    ∷ (record { key = "ambient_hitl_timeout_h"; low = 1; high = none })
    ∷ (record { key = "ambient_notification_budget_per_day"; low = 1; high = none })
    ∷ (record { key = "ambient_interrupt_threshold"; low = 1; high = none })
    ∷ (record { key = "ambient_wakeups_per_routine_per_day"; low = 1; high = none })
    ∷ (record { key = "ambient_escalation_budget_per_day"; low = 1; high = none })
    ∷ (record { key = "a2a_card_refresh_interval_s"; low = 1; high = none })
    ∷ (record { key = "a2a_task_timeout_s"; low = 1; high = none })
    ∷ (record { key = "a2a_poll_interval_s"; low = 1; high = none })
    ∷ (record { key = "rate_limit_burst"; low = 1; high = none })
    ∷ (record { key = "rate_limit_per_s"; low = 1; high = none })
    ∷ (record { key = "a2a_http_timeout_s"; low = 1; high = none })
    ∷ (record { key = "ambient_salience_min_urgency"; low = 1; high = some 5 })
    ∷ (record { key = "run_max_concurrent"; low = 1; high = some 64 })
    ∷ (record { key = "run_queue_max"; low = 0; high = some 500 })
    ∷ (record { key = "run_wall_clock_s"; low = 30; high = some 86400 })
    ∷ (record { key = "memory_community_budget_tokens"; low = 0; high = none })
    ∷ (record { key = "retention_ambient_events_days"; low = 1; high = some 3650 })
    ∷ (record { key = "retention_deliveries_days"; low = 1; high = some 3650 })
    ∷ (record { key = "retention_ambient_policies_days"; low = 1; high = some 3650 })
    ∷ (record { key = "retention_pattern_instances_days"; low = 1; high = some 3650 })
    ∷ (record { key = "retention_a2a_tasks_days"; low = 1; high = some 3650 })
    ∷ (record { key = "retention_auth_sessions_days"; low = 1; high = some 3650 })
    ∷ (record { key = "mcp_reconnect_max_attempts"; low = 1; high = some 100 })
    ∷ []
