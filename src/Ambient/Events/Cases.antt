-- ===== src/Ambient/Events/Cases.antt =====
-- The two ways in which `emit_event` ends (backend/app/ambient/store.py).
use concierge_agent.Prelude.{
  ◌≡◌, ◌≢◌, ◌⊎◌, refl, sym, subst, arith, inl, inr, true, false, not, ◌&&◌, none, ◌∷◌, Bool-cases,
  Option-cases, ℕ, ◌+◌, some, count_where, ◌==◌, nat_eq, option_eq, if◌then◌else◌,
}
use concierge_agent.Ambient.Events.{
  Uuid, AmbientEvent, Events, Emission, Env, stored, is_event_source, chain_guards, is_duplicate,
  kill_switch, new_event, emit_event,
}

-- What holds of an emission that is stored.
pub record IsAccepted (env : Env) (a : Emission) (table : Events) : Type 0 where
  pub source : is_event_source a.source ≡ true
  pub enabled : (a.require_enabled && not env.ambient_enabled) ≡ false
  pub chain : chain_guards table a.caused_by a.routine_id ≡ none
  pub unique : is_duplicate table a.dedupe_key ≡ false
  pub rate : kill_switch table a.routine_id env.now ≡ false

pub emit_event_cases :
    (env : Env) (a : Emission) (table : Events)
    → (((emit_event env a table).1 ≡ table)
        × ((e : AmbientEvent) → (emit_event env a table).0 ≢ stored e))
      ⊎ ((emit_event env a table ≡ (stored (new_event env a), new_event env a ∷ table))
          × IsAccepted env a table)
unfolding emit_event
emit_event_cases env a table = elim (Bool-cases (is_event_source a.source)) [
  | inr p ↦ inl (rw p, λ x. rw p (λ h. cc))
  | inl p ↦ elim (Bool-cases (a.require_enabled && not env.ambient_enabled)) [
    | inl q ↦ inl (rw (p, q), λ x. rw (p, q) (λ h. cc))
    | inr q ↦ elim (Option-cases (chain_guards table a.caused_by a.routine_id)) [
      | inr (error, r) ↦ inl (rw (p, q, r), λ x. rw (p, q, r) (λ h. cc))
      | inl r ↦ elim (Bool-cases (is_duplicate table a.dedupe_key)) [
        | inl d ↦ inl (rw (p, q, r, d), λ x. rw (p, q, r, d) (λ h. cc))
        | inr d ↦ elim (Bool-cases (kill_switch table a.routine_id env.now)) [
          | inl k ↦ inl (rw (p, q, r, d, k), λ x. rw (p, q, r, d, k) (λ h. cc))
          | inr k ↦ inr (
            rw (p, q, r, d, k),
            record { source = p; enabled = q; chain = r; unique = d; rate = k },
          )
        ]
      ]
    ]
  ]
]

-- An accepted emission is stored.
pub IsAccepted-stored :
    (env : Env) (a : Emission) (table : Events)
    → IsAccepted env a table
    → emit_event env a table ≡ (stored (new_event env a), new_event env a ∷ table)
unfolding emit_event
IsAccepted-stored env a table h = rw (h.source, h.enabled, h.chain, h.unique, h.rate)

-- An emission of the program's own, with no cause, routine or key, is stored while the mode is on.
pub emit_event_plain :
    (env : Env) (a : Emission) (table : Events)
    → env.ambient_enabled ≡ true
    → is_event_source a.source ≡ true
    → a.dedupe_key ≡ none
    → a.routine_id ≡ none
    → a.caused_by ≡ none
    → emit_event env a table ≡ (stored (new_event env a), new_event env a ∷ table)
unfolding chain_guards is_duplicate kill_switch
emit_event_plain env a table on source key routine cause =
    let chain : chain_guards table a.caused_by a.routine_id ≡ none =
      subst (λ c. chain_guards table c a.routine_id ≡ none) (sym cause) refl in
    let unique : is_duplicate table a.dedupe_key ≡ false =
      subst (λ k. is_duplicate table k ≡ false) (sym key) refl in
    let rate : kill_switch table a.routine_id env.now ≡ false =
      subst (λ r. kill_switch table r env.now ≡ false) (sym routine) refl in
    let enabled : (a.require_enabled && not env.ambient_enabled) ≡ false = ground (arith, on) in
    IsAccepted-stored env a table
      (record { source = source; enabled = enabled; chain = chain; unique = unique; rate = rate })

-- The events of an intent.
abbrev pub events_of : Uuid → Events → ℕ
events_of id events = count_where (λ (e : AmbientEvent). e.intent_id == some id) events

pub events_of-new_event :
    (id : Uuid) (env : Env) (a : Emission) (table : Events)
    → events_of id (new_event env a ∷ table)
      ≡ events_of id table + (if a.intent_id == some id then 1 else 0)
unfolding new_event
events_of-new_event id env a table = ground arith
