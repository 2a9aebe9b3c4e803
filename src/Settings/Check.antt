-- ===== src/Settings/Check.antt =====
-- The test of one setting (the loop of validate_updates, _validate_model_prices of
-- backend/app/settings_store.py). A test whose key is the one at hand and whose value passes falls
-- through, in the source, to tests of other keys.
use concierge_agent.Prelude.{
  String, not, ◌&&◌, ◌||◌, [], ◌∷◌, if◌then◌else◌, ◌==◌, nat_eq, string_eq, contains, any_where,
}
use concierge_agent.Settings.Value.{
  Value, is_null, is_bool, is_str, is_obj, is_at_least, is_between, is_number_between, is_positive,
  is_list_of,
}
use concierge_agent.Settings.Defaults.{
  defaults, retention_day_keys, model_keys, params_keys, int_keys, bool_keys, str_keys, log_levels,
}
use concierge_agent.Settings.Parts.{
  unknown_setting, messages, Check, World, passed, require, one_of, is_text_of, check_cache_mode,
  check_embedding, kinds, check_channel_map, check_zone, is_clock_text, check_model_prices,
  is_count,
}

-- The last tests: the keys by kind.
unfoldable pub check_kind : String → Value → Check
check_kind key value =
    if contains key bool_keys
    then require key (is_bool value)
    else if contains key str_keys
    then require key (is_str value)
    else if contains key model_keys
    then require key (is_null value || is_str value)
    else if contains key params_keys
    then require key (is_null value || is_obj value)
    else passed

-- From `run_max_concurrent` on.
unfoldable pub check_late : World → String → Value → Check
unfolding check_kind is_clock_text is_positive check_model_prices is_list_of
check_late world key value =
    if key == "run_max_concurrent"
    then require key (is_count 1 64 value)
    else if key == "run_queue_max"
    then require key (is_count 0 500 value)
    else if key == "run_wall_clock_s"
    then require key (is_count 30 86400 value)
    else if key == "ambient_timezone"
    then check_zone world value
    else if contains key ("ambient_digest_times" ∷ "ambient_quiet_hours" ∷ [])
    then require key (is_list_of (is_clock_text world) value)
    else if key == "memory_half_life_days"
    then require key (is_positive value)
    else if key == "memory_community_budget_tokens"
    then require key (is_at_least 0 value)
    else if contains key retention_day_keys
    then require key (is_count 1 3650 value)
    else if key == "mcp_reconnect_max_attempts"
    then require key (is_count 1 100 value)
    else if key == "spend_ceiling_usd_per_day"
    then require key (is_positive value && not (is_bool value))
    else if key == "model_prices"
    then check_model_prices value
    else check_kind key value

-- From `memory_forget_similarity` on. 0.9 is 8106479329266893 / 2^53.
unfoldable pub check_middle : World → String → Value → Check
unfolding check_late is_number_between check_channel_map is_list_of
check_middle world key value =
    if key == "memory_forget_similarity"
    then require key (is_number_between (1, 1) (1, 0) value)
    else if key == "memory_score_floor"
    then require key (is_number_between (0, 0) (1, 0) value)
    else if key == "ambient_salience_mode"
    then require key (is_text_of ("off" ∷ "propose" ∷ "auto" ∷ []) value)
    else if key == "ambient_salience_min_urgency"
    then require key (is_count 1 5 value)
    else if key == "ambient_pursuit"
    then require key (is_text_of ("off" ∷ "away" ∷ "always" ∷ []) value)
    else if contains key
        ("ambient_learning_mode" ∷ "ambient_salience_learning" ∷ "memory_extraction_learning" ∷ [])
    then one_of ("off" ∷ "auto" ∷ "propose" ∷ []) key value
    else if key == "memory_admission_min_confidence"
    then require key (is_number_between (0, 0) (8106479329266893, 53) value && not (is_bool value))
    else if key == "memory_quarantine_kinds"
    then require key (is_list_of (λ s. contains s kinds) value)
    else if key == "ambient_channels"
    then check_channel_map world value
    else check_late world key value

unfoldable pub check_setting : World → String → Value → Check
unfolding check_middle check_cache_mode check_embedding
check_setting world key value =
    if not (any_where (λ (item : String × Value). item.0 == key) defaults)
    then messages (unknown_setting key ∷ [])
    else if key == "orchestrator_mode"
    then one_of ("graph" ∷ "agentic" ∷ []) key value
    else if key == "registry_cache_mode"
    then check_cache_mode world value
    else if key == "embedding_model"
    then check_embedding world value
    else if key == "log_level"
    then one_of log_levels key value
    else if key == "formatter_presentation"
    then one_of ("a2ui_first" ∷ "raw_first" ∷ []) key value
    else if key == "mcp_schema_change_policy"
    then one_of ("warn" ∷ "quarantine" ∷ []) key value
    else if key == "formatter_coverage_flag_threshold"
    then require key (is_between 1 100 value)
    else if key == "a2a_max_parked"
    then require key (is_at_least 0 value)
    else if key == "ambient_tick_interval_s"
    then require key (is_at_least 15 value)
    else if key == "overlap_threshold_percent"
    then require key (is_between 0 100 value)
    else if key == "run_stall_after_s"
    then require key (is_at_least 60 value)
    else if key == "agentic_recursion_limit"
    then require key (is_between 10 500 value)
    else if key == "a2a_fence_max_chars"
    then require key (is_at_least 500 value)
    else if contains key int_keys
    then require key (is_at_least 1 value)
    else check_middle world key value
