-- ===== src/Ambient/Triggers/States.antt =====
-- State conditions (backend/app/ambient/triggers.py): edges of `probe op value`.
pub mod Rows
pub mod Tracked
pub mod Loops
pub mod Edges
use concierge_agent.Prelude.{
  ℕ, suc, ◌+◌, String, Bool, true, false, not, ◌&&◌, Option, none, some, List, [], ◌∷◌, map,
  if◌then◌else◌, ◌==◌, nat_eq, string_eq, option_eq, select,
}
use concierge_agent.Ambient.Events.{
  Uuid, Events, Emission, EmitError, Env, Outcome, raised, deduped, stored, emit_event,
}

-- The floats of the probes, with their comparisons.
pub record Floats : Type 1 where
  pub Float : Type 0
  pub le : Float → Float → Bool
  pub same : Float → Float → Bool

module _ (floats : Floats) where
  open floats use {Float, le, same}

  -- The columns of a standing intent that the evaluator uses, and its compiled rule.
  pub record StandingIntent : Type 0 where
    pub id : Uuid
    pub status : String
    pub condition_type : String
    pub probe : Option String
    pub op : String
    pub value : Float
    pub watermark : Option String

  -- What a pass meets: for an intent the answer of its probe (`none`: no such probe is registered,
  -- or it raised), what the emission meets and the text of the payload.
  pub record Probing : Type 0 where
    pub read : StandingIntent → Option Float
    pub emitting : Uuid → Env
    pub payload : Uuid → String

  unfoldable pub holds : StandingIntent → Float → Bool
  holds intent value =
      if intent.op == ">="
      then le intent.value value
      else if intent.op == "<="
      then le value intent.value
      else same value intent.value

  abbrev pub was_holding : StandingIntent → Bool
  was_holding intent = intent.watermark == some "holding"

  pub state_emission : Probing → StandingIntent → Emission
  state_emission env intent = record {
    kind = "state_condition";
    source = "internal";
    payload = some (env.payload intent.id);
    dedupe_key = none;
    routine_id = none;
    intent_id = some intent.id;
    caused_by = none;
    occurred_at = none;
    require_enabled = true;
  }

  -- The tables, the events emitted, and the exception that ended the pass, if any.
  pub record Pass : Type 0 where
    pub intents : List StandingIntent
    pub events : Events
    pub emitted : ℕ
    pub error : Option EmitError

  unfoldable pub set_watermark : Uuid → Bool → List StandingIntent → List StandingIntent
  set_watermark id now rows =
      map
        (λ (r : StandingIntent).
          if r.id == id
          then record r { watermark = some (if now then "holding" else "clear") }
          else r)
        rows

  -- The emission on a rising edge.
  unfoldable pub emit_edge : Probing → StandingIntent → Pass → Pass
  unfolding emit_event state_emission
  emit_edge env intent s =
      let result = emit_event (env.emitting intent.id) (state_emission env intent) s.events in
      elim result.0 [
        | raised error ↦ record s { events = result.1; error = some error }
        | deduped ↦ record s { events = result.1 }
        | stored e ↦ record s { events = result.1; emitted = suc s.emitted }
      ]

  abbrev differ : Bool → Bool → Bool
  differ true b = not b
  differ false b = b

  -- `holds != was_holding`: the watermark, unless an exception ended the pass.
  unfoldable pub save_edge : StandingIntent → Bool → Pass → Pass
  unfolding set_watermark
  save_edge intent now s = elim s.error [
    | some error ↦ s
    | none ↦
        if differ now (was_holding intent)
        then record s { intents = set_watermark intent.id now s.intents }
        else s
  ]

  -- One round of the loop.
  unfoldable pub evaluate_state : Probing → StandingIntent → Pass → Pass
  unfolding holds emit_edge save_edge
  evaluate_state env intent s = elim (env.read intent) [
    | none ↦ s
    | some value ↦
        save_edge intent (holds intent value)
          (if holds intent value && not (was_holding intent) then emit_edge env intent s else s)
  ]

  unfoldable pub evaluate_states : Probing → List StandingIntent → Pass → Pass
  unfolding evaluate_state
  evaluate_states env [] s = s
  evaluate_states env (intent ∷ rest) s = elim s.error [
    | some error ↦ s
    | none ↦ evaluate_states env rest (evaluate_state env intent s)
  ]

  unfoldable pub evaluate_state_conditions : Probing → List StandingIntent → Events → Pass
  unfolding evaluate_states
  evaluate_state_conditions env intents events =
      evaluate_states env
        (select (λ (r : StandingIntent). r.status == "active" && r.condition_type == "state")
          intents)
        (record { intents = intents; events = events; emitted = 0; error = none })
