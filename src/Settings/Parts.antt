-- ===== src/Settings/Parts.antt =====
-- The messages of the tests, what the tests ask, and the tests of a whole value
-- (_validate_model_prices, and branches of validate_updates, of backend/app/settings_store.py).
use concierge_agent.Prelude.{
  ℕ, String, Bool, true, false, not, ◌&&◌, Option, List, [], ◌∷◌, ◌++◌, map, leb, if◌then◌else◌,
  ◌==◌, nat_eq, string_eq, contains,
}
use concierge_agent.Prelude.Text.{codes}
use concierge_agent.Settings.Value.{
  Value, null, str, arr, obj, Fields, no_fields, with_field, is_bool, is_between, is_not_negative,
  is_list_of, get_field,
}

-- A message with what it quotes; `invalid` is the message of its key.
pub data Message : Type 0 where
  unknown_setting invalid : String → Message
  redis_needs_url redis_unreachable prices_not_object : Message
  bad_embedding unknown_mode channels_not_texts unknown_channels : String → Message
  bad_ref bad_row : String → Message
  bad_amount : String → String → Message
  bad_params bad_model : String → String → Message
  params_need_model : String → Message

-- A list or an object has no hash: `value in {...}` raises the TypeError.
pub data Check : Type 0 where
  messages : List Message → Check
  type_error : Check

-- What the tests ask: the configuration, the channels that are registered, the zones of the tz
-- database, the decimal digits of Unicode, and the model registry. `parse_params` is the message of
-- the ValidationError, if there is one.
pub record World : Type 0 where
  pub redis_url : Bool
  pub registered_channels : List String
  pub is_zone : String → Bool
  pub is_digit : ℕ → Bool
  pub validate_embedding : String → List String
  pub parse_params : Value → Option String
  pub validate_model : String → Option Value → List String

abbrev pub passed : Check
passed = messages []

abbrev pub require : String → Bool → Check
require key ok = if ok then passed else messages (invalid key ∷ [])

-- value in {...}
abbrev pub one_of : List String → String → Value → Check
one_of texts key (str s) = require key (contains s texts)
one_of texts key (arr xs) = type_error
one_of texts key (obj fs) = type_error
one_of texts key _ = require key false

-- isinstance(value, str) and value in {...}
abbrev pub is_text_of : List String → Value → Bool
is_text_of texts (str s) = contains s texts
is_text_of texts _ = false

unfoldable pub check_cache_mode : World → Value → Check
check_cache_mode world (str s) =
    if not (contains s ("bypass" ∷ "memory" ∷ "redis" ∷ []))
    then messages (invalid "registry_cache_mode" ∷ [])
    else if s == "redis" && not world.redis_url
    then messages (redis_needs_url ∷ [])
    else passed
check_cache_mode world (arr xs) = type_error
check_cache_mode world (obj fs) = type_error
check_cache_mode world _ = messages (invalid "registry_cache_mode" ∷ [])

unfoldable pub check_embedding : World → Value → Check
check_embedding world null = passed
check_embedding world (str s) = messages (map (λ e. bad_embedding e) (world.validate_embedding s))
check_embedding world _ = messages (invalid "embedding_model" ∷ [])

abbrev pub kinds : List String
kinds = "fact" ∷ "preference" ∷ "entity" ∷ "relation" ∷ "instruction" ∷ []

abbrev pub delivery_modes : List String
delivery_modes = "interrupt" ∷ "notify" ∷ "digest" ∷ []

unfoldable pub check_channels : World → Fields → List Message
unfolding is_list_of
check_channels world no_fields = []
check_channels world (with_field mode channels rest) =
    let later = check_channels world rest in
    if not (contains mode delivery_modes)
    then unknown_mode mode ∷ later
    else if not (is_list_of (λ s. true) channels)
    then channels_not_texts mode ∷ later
    else if not (is_list_of (λ s. contains s world.registered_channels) channels)
    then unknown_channels mode ∷ later
    else later

unfoldable pub check_channel_map : World → Value → Check
unfolding check_channels
check_channel_map world (obj fs) = messages (check_channels world fs)
check_channel_map world _ = messages (invalid "ambient_channels" ∷ [])

abbrev pub check_zone : World → Value → Check
check_zone world (str s) = require "ambient_timezone" (not (s == "") && world.is_zone s)
check_zone world _ = require "ambient_timezone" false

-- re.fullmatch(r"[0-2]\d:[0-5]\d", s)
unfoldable pub is_clock_text : World → String → Bool
is_clock_text world s = matches (codes s)
  where
    matches : List ℕ → Bool
    matches (a ∷ b ∷ c ∷ d ∷ e ∷ []) =
        leb b'0' a
        && leb a b'2'
        && world.is_digit b
        && c == b':'
        && leb b'0' d
        && leb d b'5'
        && world.is_digit e
    matches _ = false

-- ":" in ref and not ref.startswith(":") and not ref.endswith(":")
unfoldable pub is_model_ref : String → Bool
is_model_ref ref = from_second (codes ref)
  where
    after_colon : List ℕ → Bool
    after_colon [] = false
    after_colon (c ∷ []) = not (c == b':')
    after_colon (c ∷ rest) = after_colon rest

    seek : List ℕ → Bool
    seek [] = false
    seek (c ∷ rest) = if c == b':' then after_colon rest else seek rest

    from_second : List ℕ → Bool
    from_second [] = false
    from_second (c ∷ rest) = not (c == b':') && seek rest

abbrev pub check_amount : String → String → Fields → List Message
check_amount ref name row =
    if is_not_negative (get_field row name) && not (is_bool (get_field row name))
    then []
    else bad_amount ref name ∷ []

unfoldable pub check_prices : Fields → List Message
unfolding is_model_ref is_not_negative get_field
check_prices no_fields = []
check_prices (with_field ref (obj row) rest) =
    let later = check_prices rest in
    if is_model_ref ref
    then check_amount ref "input_per_m" row ++ (check_amount ref "output_per_m" row ++ later)
    else bad_ref ref ∷ later
check_prices (with_field ref other rest) =
    let later = check_prices rest in
    if is_model_ref ref then bad_row ref ∷ later else bad_ref ref ∷ later

-- _validate_model_prices
unfoldable pub check_model_prices : Value → Check
unfolding check_prices
check_model_prices (obj fs) = messages (check_prices fs)
check_model_prices _ = messages (prices_not_object ∷ [])

-- An integer that is no Boolean.
abbrev pub is_count : ℕ → ℕ → Value → Bool
is_count low high value = is_between low high value && not (is_bool value)
