-- ===== src/Settings/Update.antt =====
-- The stored settings (get_settings, _validate_pair, validate_updates and update_settings of
-- backend/app/settings_store.py).
use concierge_agent.Prelude.{
  String, Bool, false, not, ◌&&◌, ◌||◌, Option, none, some, List, [], ◌∷◌, ◌++◌, map, if◌then◌else◌,
  ◌==◌, nat_eq, string_eq, any_where, select,
}
use concierge_agent.Prelude.Text.{concat}
use concierge_agent.Settings.Value.{Value, null, str, is_null}
use concierge_agent.Settings.Defaults.{Dict, defaults, model_keys}
use concierge_agent.Settings.Parts.{
  Message, redis_unreachable, invalid, bad_params, bad_model, params_need_model, Check, messages,
  type_error, World,
}
use concierge_agent.Settings.Check.{check_setting}

-- key in d
abbrev pub has : String → Dict → Bool
has key d = any_where (λ (item : String × Value). item.0 == key) d

-- d.get(key): a missing key is null
unfoldable pub get : Dict → String → Value
get [] key = null
get ((k, v) ∷ rest) key = if k == key then v else get rest key

-- d[key] = v
unfoldable pub put : String → Value → Dict → Dict
put key v d =
    if has key d
    then map (λ (item : String × Value). if item.0 == key then (item.0, v) else item) d
    else d ++ ((key, v) ∷ [])

-- The loop over the rows of the table.
unfoldable pub overlay : Dict → Dict → Dict
unfolding put
overlay [] merged = merged
overlay ((key, v) ∷ rest) merged =
    overlay rest (if has key merged then put key v merged else merged)

unfoldable pub get_settings : Dict → Dict
unfolding overlay
get_settings rows = overlay rows defaults

-- d.update(updates), and the writes of update_settings to the table
unfoldable pub put_all : Dict → Dict → Dict
unfolding put
put_all [] d = d
put_all ((key, v) ∷ rest) d = put_all rest (put key v d)

-- _validate_pair
unfoldable pub validate_pair : World → Dict → String → List Message
unfolding get
validate_pair world merged model_key =
    let params_key = concat (model_key ∷ "_params" ∷ []) in
    let params = get merged params_key in
    let selection = λ (given : Option Value).
      (if is_null (get merged model_key)
        then if is_null params then [] else params_need_model params_key ∷ []
        else model_messages (get merged model_key) given) in
    if is_null params then selection none else elim (world.parse_params params) [
      | some problem ↦ bad_params params_key problem ∷ []
      | none ↦ selection (some params)
    ]
  where
    model_messages : Value → Option Value → List Message
    model_messages (str ref) given =
        map (λ e. bad_model model_key e) (world.validate_model ref given)
    model_messages other given = invalid model_key ∷ []

-- The model keys that are set, or whose parameters are.
abbrev touched_pairs : Dict → List String
touched_pairs updates =
    select (λ key. has key updates || has (concat (key ∷ "_params" ∷ [])) updates) model_keys

unfoldable pub validate_pairs : World → Dict → List String → List Message
unfolding validate_pair
validate_pairs world merged [] = []
validate_pairs world merged (key ∷ rest) =
    let later = validate_pairs world merged rest in
    if is_null (get merged key) && is_null (get merged (concat (key ∷ "_params" ∷ [])))
    then later
    else validate_pair world merged key ++ later

-- The messages of two tests, unless one raises.
unfoldable pub both : Check → Check → Check
both type_error later = type_error
both (messages ms) type_error = type_error
both (messages ms) (messages more) = messages (ms ++ more)

unfoldable pub check_settings : World → Dict → Check
unfolding check_setting both
check_settings world [] = messages []
check_settings world ((key, v) ∷ rest) =
    both (check_setting world key v) (check_settings world rest)

-- `if errors: return errors`, and the pairs.
unfoldable pub then_pairs : World → Dict → Dict → Check → Check
unfolding validate_pairs put_all
then_pairs world current updates (messages []) =
    messages (validate_pairs world (put_all updates current) (touched_pairs updates))
then_pairs world current updates failed = failed

unfoldable pub validate_updates : World → Dict → Dict → Check
unfolding check_settings then_pairs
validate_updates world current updates =
    then_pairs world current updates (check_settings world updates)

-- What a write sets off: the cache of the settings is dropped, and some settings apply at once.
pub data Effect : Type 0 where
  invalidate backfill : Effect
  set_log_level set_otlp_endpoint : Value → Effect

unfoldable pub effects : Dict → List Effect
effects updates =
    invalidate
      ∷ (if has "log_level" updates then set_log_level (get updates "log_level") ∷ [] else [])
    ++ ((if has "otlp_endpoint" updates
          then set_otlp_endpoint (get updates "otlp_endpoint") ∷ []
          else [])
        ++ (if has "embedding_model" updates || has "retrieval_enabled" updates
            then backfill ∷ []
            else []))

-- How a request ends: with the SettingsValidationError, the TypeError, or the table and the effects.
pub data Result : Type 0 where
  refused : List Message → Result
  raised : Result
  saved : Dict → List Effect → Result

abbrev pub is_redis : Value → Bool
is_redis (str s) = s == "redis"
is_redis _ = false

-- What follows the validation; `reachable`: Redis answers the ping.
unfoldable pub write_settings : Bool → Dict → Dict → Check → Result
unfolding get put_all effects
write_settings reachable updates rows type_error = raised
write_settings reachable updates rows (messages (e ∷ more)) = refused (e ∷ more)
write_settings reachable updates rows (messages []) =
    if is_redis (get updates "registry_cache_mode") && not reachable
    then refused (redis_unreachable ∷ [])
    else saved (put_all updates rows) (effects updates)

unfoldable pub update_settings : World → Bool → Dict → Dict → Result
unfolding validate_updates get_settings write_settings
update_settings world reachable updates rows =
    write_settings reachable updates rows (validate_updates world (get_settings rows) updates)
