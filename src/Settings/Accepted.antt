-- ===== src/Settings/Accepted.antt =====
-- What holds of an update that is saved (backend/app/settings_store.py).
use concierge_agent.Prelude.{
  ◌≡◌, ◌≢◌, refl, sym, ap, String, Bool, true, not, ◌&&◌, List, [], ◌∷◌, string_eq, if-both, All,
  nil_of_append,
}
use concierge_agent.Settings.Value.{Value}
use concierge_agent.Settings.Defaults.{Dict, defaults}
use concierge_agent.Settings.Parts.{Message, redis_unreachable, World, Check, messages, type_error}
use concierge_agent.Settings.Check.{check_setting}
use concierge_agent.Settings.Update.{
  has, get, put_all, get_settings, both, check_settings, then_pairs, validate_updates, Effect,
  Result, refused, raised, saved, write_settings, update_settings, is_redis, effects,
}
use concierge_agent.Settings.Stored.{value_in, get_settings-put_all}

abbrev pub table_of : Result → Dict → Dict
table_of (saved rows effects) old = rows
table_of _ old = old

abbrev messages_of : Check → List Message → List Message
messages_of (messages ms) other = ms
messages_of type_error other = other

raises-ne : type_error ≢ messages []
raises-ne h = cc

raised-ne : (after : Dict) (done : List Effect) → raised ≢ saved after done
raised-ne after done h = cc

refused-ne : (ms : List Message) (after : Dict) (done : List Effect) → refused ms ≢ saved after done
refused-ne ms after done h = cc

both-passed : (a b : Check) → both a b ≡ messages [] → (a ≡ messages []) × (b ≡ messages [])
unfolding both
both-passed type_error b h = absurd (raises-ne h)
both-passed (messages ms) type_error h = absurd (raises-ne h)
both-passed (messages ms) (messages more) h =
    let (e, f) = nil_of_append ms more (ap (λ c. messages_of c []) h) in
    (ap messages e, ap messages f)

-- Each item passed its test.
abbrev pub AllPass : World → Dict → Type 0
AllPass world updates =
    All (λ (item : String × Value). check_setting world item.0 item.1 ≡ messages []) updates

check_settings-AllPass :
    (world : World) (updates : Dict)
    → check_settings world updates ≡ messages []
    → AllPass world updates
unfolding check_settings
check_settings-AllPass world [] h = tt
check_settings-AllPass world ((key, v) ∷ rest) h =
    let (e, f) = both-passed (check_setting world key v) (check_settings world rest) h in
    (e, check_settings-AllPass world rest f)

then_pairs-passed :
    (world : World) (current updates : Dict) (c : Check)
    → then_pairs world current updates c ≡ messages []
    → c ≡ messages []
unfolding then_pairs
then_pairs-passed world current updates (messages []) h = refl
then_pairs-passed world current updates (messages (e ∷ more)) h = h
then_pairs-passed world current updates type_error h = h

write_settings-saved :
    (reachable : Bool) (updates rows after : Dict) (done : List Effect) (c : Check)
    → write_settings reachable updates rows c ≡ saved after done
    → (c ≡ messages []) × (after ≡ put_all updates rows)
unfolding write_settings
write_settings-saved reachable updates rows after done type_error h =
    absurd (raised-ne after done h)
write_settings-saved reachable updates rows after done (messages (e ∷ more)) h =
    absurd (refused-ne (e ∷ more) after done h)
write_settings-saved reachable updates rows after done (messages []) h = (
  refl,
  if-both (λ (r : Result). r ≡ saved after done → after ≡ put_all updates rows)
      (is_redis (get updates "registry_cache_mode") && not reachable)
      (refused (redis_unreachable ∷ [])) (saved (put_all updates rows) (effects updates))
      (λ e k. absurd (refused-ne (redis_unreachable ∷ []) after done k))
      (λ e k. sym (ap (λ r. table_of r rows) k)) h,
)

-- A saved update passed each test, and its items are in the table.
pub update_settings-saved :
    (world : World) (reachable : Bool) (updates rows after : Dict) (done : List Effect)
    → update_settings world reachable updates rows ≡ saved after done
    → AllPass world updates × (after ≡ put_all updates rows)
unfolding update_settings validate_updates
update_settings-saved world reachable updates rows after done h =
    let current = get_settings rows in
    let (valid, written) =
      write_settings-saved reachable updates rows after done
        (validate_updates world current updates) h in
    (
      check_settings-AllPass world updates
          (then_pairs-passed world current updates (check_settings world updates) valid),
      written,
    )

-- After an update that is saved, each setting reads as what the update gave it last, or else as before.
pub update_settings_reads :
    (world : World) (reachable : Bool) (updates rows after : Dict) (done : List Effect)
    (key : String)
    → update_settings world reachable updates rows ≡ saved after done
    → has key defaults ≡ true
    → get (get_settings after) key ≡ value_in updates key (get (get_settings rows) key)
update_settings_reads world reachable updates rows after done key h known =
    rw ((update_settings-saved world reachable updates rows after done h).1)
      (get_settings-put_all updates rows key known)
