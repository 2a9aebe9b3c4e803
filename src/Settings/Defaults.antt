-- ===== src/Settings/Defaults.antt =====
-- The defaults of the settings, and the keys by kind (backend/app/settings_store.py).
use concierge_agent.Prelude.{String, true, false, List, [], ◌∷◌}
use concierge_agent.Settings.Value.{
  Value, null, bool, int, float, str, arr, obj, no_items, push, no_fields,
}

-- A dictionary: its items in order.
abbrev pub Dict : Type 0
Dict = List (String × Value)

abbrev pub defaults : Dict
defaults =
    ("orchestrator_mode", str "graph")
    ∷ ("orchestrator_full_fallback_enabled", bool true)
    ∷ ("default_model", str "anthropic:claude-sonnet-4-6")
    ∷ ("default_model_params", null)
    ∷ ("planner_model", null)
    ∷ ("planner_model_params", null)
    ∷ ("aggregator_model", null)
    ∷ ("aggregator_model_params", null)
    ∷ ("max_parallel_dispatch", int 4)
    ∷ ("max_plan_steps", int 6)
    ∷ ("max_tool_iterations", int 8)
    ∷ ("dynamic_worker_fallback_enabled", bool true)
    ∷ ("direct_exposure_cap_warning", int 10)
    ∷ ("formatter_enabled", bool true)
    ∷ ("formatter_presentation", str "a2ui_first")
    ∷ ("formatter_model", null)
    ∷ ("formatter_model_params", null)
    ∷ ("formatter_coverage_flag_threshold", int 90)
    ∷ ("answer_ui_charts_enabled", bool true)
    ∷ ("mcp_health_interval_s", int 30)
    ∷ ("mcp_schema_change_policy", str "warn")
    ∷ ("overlap_judge_model", null)
    ∷ ("overlap_judge_model_params", null)
    ∷ ("eval_judge_model", null)
    ∷ ("eval_judge_model_params", null)
    ∷ ("registry_overlap_audit_enabled", bool false)
    ∷ ("log_level", str "INFO")
    ∷ ("langsmith_enabled", bool false)
    ∷ ("langsmith_endpoint", str "")
    ∷ ("langsmith_project", str "concierge-agent")
    ∷ ("otlp_endpoint", str "")
    ∷ ("registry_cache_mode", str "bypass")
    ∷ ("retrieval_enabled", bool false)
    ∷ ("retrieval_threshold", int 30)
    ∷ ("retrieval_top_k", int 10)
    ∷ ("embedding_model", null)
    ∷ ("memory_enabled", bool false)
    ∷ ("memory_extraction_enabled", bool true)
    ∷ ("memory_reflection_enabled", bool false)
    ∷ ("procedural_learning_enabled", bool false)
    ∷ ("memory_injection_budget_tokens", int 1200)
    ∷ ("memory_pinned_budget_tokens", int 400)
    ∷ ("memory_recall_top_k", int 6)
    ∷ ("memory_score_floor", float false 3152519739159347 53)
    ∷ ("memory_extraction_model", null)
    ∷ ("memory_extraction_model_params", null)
    ∷ ("memory_half_life_days", float false 30 0)
    ∷ ("memory_idle_minutes", int 10)
    ∷ ("memory_digest_compact_days", int 14)
    ∷ ("memory_forget_enabled", bool false)
    ∷ ("memory_forget_similarity", float false 7656119366529843 53)
    ∷ ("memory_admission_min_confidence", float false 1 1)
    ∷ ("memory_quarantine_kinds", arr no_items)
    ∷ ("memory_extraction_learning", str "off")
    ∷ ("memory_community_budget_tokens", int 150)
    ∷ ("memory_decay_enabled", bool true)
    ∷ ("memory_contradiction_enabled", bool true)
    ∷ ("memory_communities_enabled", bool true)
    ∷ ("memory_compaction_enabled", bool true)
    ∷ ("ambient_enabled", bool false)
    ∷ ("ambient_max_routines", int 10)
    ∷ ("ambient_runs_per_day", int 50)
    ∷ ("ambient_routine_events_per_hour", int 20)
    ∷ ("ambient_idle_minutes", int 10)
    ∷ ("ambient_hitl_timeout_h", int 24)
    ∷ ("ambient_digest_times", arr (push (str "09:00") (push (str "17:00") no_items)))
    ∷ ("ambient_notification_budget_per_day", int 3)
    ∷ ("ambient_quiet_hours", arr (push (str "22:00") (push (str "07:00") no_items)))
    ∷ ("ambient_timezone", str "UTC")
    ∷ ("run_max_concurrent", int 8)
    ∷ ("run_queue_max", int 32)
    ∷ ("run_wall_clock_s", int 900)
    ∷ ("ambient_interrupt_threshold", int 4)
    ∷ ("ambient_wakeups_per_routine_per_day", int 100)
    ∷ ("ambient_escalation_budget_per_day", int 10)
    ∷ ("ambient_learning_mode", str "off")
    ∷ ("ambient_precision_rule_enabled", bool true)
    ∷ ("ambient_channels", obj no_fields)
    ∷ ("ambient_pursuit", str "always")
    ∷ ("ambient_salience_mode", str "off")
    ∷ ("ambient_salience_min_urgency", int 3)
    ∷ ("ambient_salience_learning", str "off")
    ∷ ("ambient_salience_model", null)
    ∷ ("ambient_salience_model_params", null)
    ∷ ("ambient_anticipation_enabled", bool true)
    ∷ ("evals_enabled", bool true)
    ∷ ("a2a_enabled", bool false)
    ∷ ("a2a_card_refresh_interval_s", int 300)
    ∷ ("a2a_task_timeout_s", int 120)
    ∷ ("a2a_poll_interval_s", int 60)
    ∷ ("a2a_max_parked", int 20)
    ∷ ("ambient_tick_interval_s", int 60)
    ∷ ("rate_limit_burst", int 120)
    ∷ ("rate_limit_per_s", int 10)
    ∷ ("overlap_threshold_percent", int 70)
    ∷ ("run_stall_after_s", int 300)
    ∷ ("agentic_recursion_limit", int 100)
    ∷ ("a2a_http_timeout_s", int 15)
    ∷ ("a2a_fence_max_chars", int 8000)
    ∷ ("retention_ambient_events_enabled", bool false)
    ∷ ("retention_ambient_events_days", int 30)
    ∷ ("retention_deliveries_enabled", bool false)
    ∷ ("retention_deliveries_days", int 90)
    ∷ ("retention_ambient_policies_enabled", bool false)
    ∷ ("retention_ambient_policies_days", int 365)
    ∷ ("retention_pattern_instances_enabled", bool false)
    ∷ ("retention_pattern_instances_days", int 7)
    ∷ ("retention_a2a_tasks_enabled", bool false)
    ∷ ("retention_a2a_tasks_days", int 90)
    ∷ ("retention_auth_sessions_enabled", bool true)
    ∷ ("retention_auth_sessions_days", int 7)
    ∷ ("mcp_auto_reconnect_enabled", bool true)
    ∷ ("mcp_reconnect_max_attempts", int 8)
    ∷ ("model_prices", obj no_fields)
    ∷ ("spend_ceiling_enabled", bool false)
    ∷ ("spend_ceiling_usd_per_day", float false 10 0)
    ∷ []

abbrev pub retention_day_keys : List String
retention_day_keys =
    "retention_ambient_events_days" ∷ "retention_deliveries_days"
    ∷ "retention_ambient_policies_days" ∷ "retention_pattern_instances_days"
    ∷ "retention_a2a_tasks_days" ∷ "retention_auth_sessions_days" ∷ []

abbrev pub model_keys : List String
model_keys =
    "default_model" ∷ "planner_model" ∷ "aggregator_model" ∷ "formatter_model"
    ∷ "memory_extraction_model" ∷ "ambient_salience_model" ∷ "overlap_judge_model"
    ∷ "eval_judge_model" ∷ []

abbrev pub params_keys : List String
params_keys =
    "default_model_params" ∷ "planner_model_params" ∷ "aggregator_model_params"
    ∷ "formatter_model_params" ∷ "memory_extraction_model_params" ∷ "ambient_salience_model_params"
    ∷ "overlap_judge_model_params" ∷ "eval_judge_model_params" ∷ []

abbrev pub int_keys : List String
int_keys =
    "max_parallel_dispatch" ∷ "max_plan_steps" ∷ "max_tool_iterations"
    ∷ "direct_exposure_cap_warning" ∷ "mcp_health_interval_s" ∷ "retrieval_threshold"
    ∷ "retrieval_top_k" ∷ "memory_injection_budget_tokens" ∷ "memory_pinned_budget_tokens"
    ∷ "memory_recall_top_k" ∷ "memory_idle_minutes" ∷ "memory_digest_compact_days"
    ∷ "ambient_max_routines" ∷ "ambient_runs_per_day" ∷ "ambient_routine_events_per_hour"
    ∷ "ambient_idle_minutes" ∷ "ambient_hitl_timeout_h" ∷ "ambient_notification_budget_per_day"
    ∷ "ambient_interrupt_threshold" ∷ "ambient_wakeups_per_routine_per_day"
    ∷ "ambient_escalation_budget_per_day" ∷ "a2a_card_refresh_interval_s" ∷ "a2a_task_timeout_s"
    ∷ "a2a_poll_interval_s" ∷ "rate_limit_burst" ∷ "rate_limit_per_s" ∷ "a2a_http_timeout_s" ∷ []

abbrev pub bool_keys : List String
bool_keys =
    "orchestrator_full_fallback_enabled" ∷ "dynamic_worker_fallback_enabled" ∷ "langsmith_enabled"
    ∷ "formatter_enabled" ∷ "answer_ui_charts_enabled" ∷ "retrieval_enabled" ∷ "memory_enabled"
    ∷ "memory_extraction_enabled" ∷ "memory_reflection_enabled" ∷ "procedural_learning_enabled"
    ∷ "ambient_enabled" ∷ "ambient_precision_rule_enabled" ∷ "memory_forget_enabled" ∷ "a2a_enabled"
    ∷ "memory_decay_enabled" ∷ "memory_contradiction_enabled" ∷ "memory_communities_enabled"
    ∷ "memory_compaction_enabled" ∷ "ambient_anticipation_enabled"
    ∷ "registry_overlap_audit_enabled" ∷ "evals_enabled" ∷ "retention_ambient_events_enabled"
    ∷ "retention_deliveries_enabled" ∷ "retention_ambient_policies_enabled"
    ∷ "retention_pattern_instances_enabled" ∷ "retention_a2a_tasks_enabled"
    ∷ "retention_auth_sessions_enabled" ∷ "mcp_auto_reconnect_enabled" ∷ "spend_ceiling_enabled"
    ∷ []

abbrev pub str_keys : List String
str_keys = "langsmith_endpoint" ∷ "langsmith_project" ∷ "otlp_endpoint" ∷ []

abbrev pub log_levels : List String
log_levels = "DEBUG" ∷ "INFO" ∷ "WARNING" ∷ "ERROR" ∷ []
