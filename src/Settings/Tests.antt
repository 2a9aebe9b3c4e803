-- ===== src/Settings/Tests.antt =====
-- Two updates (backend/app/settings_store.py).
use concierge_agent.Prelude.{
  ◌≤◌, ◌≡◌, refl, true, false, ◌&&◌, none, List, [], ◌∷◌, leb, length, ◌==◌, string_eq,
}
use concierge_agent.Settings.Value.{int, str, arr, no_items, push}
use concierge_agent.Settings.Defaults.{Dict, defaults}
use concierge_agent.Settings.Parts.{World, messages, invalid}
use concierge_agent.Settings.Check.{check_setting}
use concierge_agent.Settings.Update.{
  has, get, get_settings, saved, refused, raised, invalidate, update_settings,
}
use concierge_agent.Settings.Stored.{value_in}
use concierge_agent.Settings.Accepted.{update_settings_reads}
use concierge_agent.Settings.Sound.{Request, after_requests, IsSound, settings-IsSound}
use concierge_agent.Settings.Runs.{run_settings, settings_bound_runs}
use concierge_agent.Orchestrator.Admission.{enter_slot}
use concierge_agent.Orchestrator.Admission.Slots.{System, Reach, start, next, enters, initial}

abbrev world : World
world = record {
  redis_url = false;
  registered_channels = "in_app" ∷ [];
  is_zone = λ zone. zone == "UTC";
  is_digit = λ c. leb b'0' c && leb c b'9';
  validate_embedding = λ ref. [];
  parse_params = λ params. none;
  validate_model = λ ref params. [];
}

abbrev four_runs : Dict
four_runs = ("run_max_concurrent", int 4) ∷ []

four_runs_saved :
    update_settings world true four_runs []
    ≡ saved (("run_max_concurrent", int 4) ∷ []) (invalidate ∷ [])
unfolding update_settings
four_runs_saved = refl

abbrev too_many : Dict
too_many = ("run_max_concurrent", int 65) ∷ []

too_many_refused :
    update_settings world true too_many [] ≡ refused (invalid "run_max_concurrent" ∷ [])
unfolding update_settings
too_many_refused = refl

-- A list where the set of the modes is asked raises the TypeError.
list_raises : update_settings world true (("log_level", arr no_items) ∷ []) [] ≡ raised
unfolding update_settings
list_raises = refl

-- No clock shows 29:59.
odd_clock_passes :
    check_setting world "ambient_quiet_hours"
      (arr (push (str "29:59") (push (str "07:00") no_items)))
    ≡ messages []
unfolding check_setting
odd_clock_passes = refl

default_is_known : has "run_max_concurrent" defaults ≡ true
default_is_known = refl

update_settings_reads_example :
    get (get_settings (("run_max_concurrent", int 4) ∷ [])) "run_max_concurrent"
    ≡ value_in four_runs "run_max_concurrent" (get (get_settings []) "run_max_concurrent")
update_settings_reads_example =
    update_settings_reads world true four_runs [] (("run_max_concurrent", int 4) ∷ [])
      (invalidate ∷ []) "run_max_concurrent" four_runs_saved default_is_known

abbrev requests : List Request
requests = (world, (true, four_runs)) ∷ (world, (true, too_many)) ∷ []

settings-IsSound_example : IsSound (get_settings (after_requests requests []))
settings-IsSound_example = settings-IsSound requests

abbrev arrived : System
arrived =
    let (s, a) =
      enter_slot 7 (run_settings (get_settings (after_requests requests []))) initial.state in
    record { state = a; waiting = (7, s) ∷ []; holding = [] }

arrived_reached : Reach (run_settings (get_settings (after_requests requests []))) initial arrived
arrived_reached = next start (enters 7 (λ at. at) (λ at. at))

settings_bound_runs_example : length arrived.state.running ≤ 64
settings_bound_runs_example = settings_bound_runs requests arrived arrived_reached
