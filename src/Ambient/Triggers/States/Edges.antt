-- ===== src/Ambient/Triggers/States/Edges.antt =====
-- The events of a state condition over many passes (backend/app/ambient/triggers.py).
use concierge_agent.Prelude.{
  ℕ, suc, ◌+◌, ◌≤◌, ◌≡◌, refl, ap, ◌∙◌, inl, inr, String, Bool, true, ◌&&◌, Option, none, some,
  List, [], ◌∷◌, map, select, arith, All, Bool-cases, Option-cases, eq_iff, if◌then◌else◌, ◌==◌,
  nat_eq, string_eq, option_eq,
}
use concierge_agent.Ambient.Events.{Uuid, Events, Env}
use concierge_agent.Ambient.Events.Cases.{events_of}
use concierge_agent.Ambient.Triggers.States.{
  Floats, StandingIntent, Probing, holds, was_holding, evaluate_state_conditions,
}
use concierge_agent.Ambient.Triggers.States.Rows.{
  intent_of, rows_of, intent_of-select, rows_of-select,
}
use concierge_agent.Ambient.Triggers.States.Tracked.{moved, edge, IsAfter}
use concierge_agent.Ambient.Triggers.States.Loops.{IsOn, evaluate_states-tracked}

-- How often a condition begins to hold.
abbrev pub rises : Bool → List Bool → ℕ
rises was [] = 0
rises was (now ∷ later) =
    let rest = rises now later in if now then if was then rest else suc rest else rest

rises-cons :
    (was now : Bool) (later : List Bool)
    → rises was (now ∷ later) ≡ (if now then if was then 0 else 1 else 0) + rises now later
rises-cons was now later = ground arith

module _ (floats : Floats) where
  open floats use {Float}

  -- One pass: what the probe of an intent answers, if it does, what the emission for it meets, and
  -- the payload.
  pub record Moment : Type 0 where
    pub value : Uuid → Option Float
    pub emitting : Uuid → Env
    pub payload : Uuid → String

  abbrev pub probing : Moment → Probing floats
  probing m = record {
    read = λ intent. m.value intent.id;
    emitting = m.emitting;
    payload = m.payload;
  }

  -- The events after passes one after the other.
  abbrev pub watch : List Moment → List (StandingIntent floats) → Events → Events
  watch [] intents events = events
  watch (m ∷ later) intents events =
      let pass = evaluate_state_conditions floats (probing m) intents events in
      watch later pass.intents pass.events

  -- What the probe of an intent answered, in order.
  abbrev pub answers : Uuid → List Moment → List Float
  answers id [] = []
  answers id (m ∷ later) =
      let rest = answers id later in elim (m.value id) [ none ↦ rest | some x ↦ x ∷ rest ]

  -- After an answer a row differs in its watermark alone, which says whether the condition holds.
  record IsMarked (i next : StandingIntent floats) (now : Bool) : Type 0 where
    w : Option String
    row : next ≡ record i { watermark = w }
    says : (w == some "holding") ≡ now

  moved-IsMarked :
      (i : StandingIntent floats) (x : Float)
      → IsMarked i (moved floats (some x) i) (holds floats i x)
  moved-IsMarked i x = elim (Bool-cases (holds floats i x)) [
    | inl now ↦ elim (Bool-cases (was_holding floats i)) [
      | inl was ↦ rw (now, was) (record { w = i.watermark; row = refl; says = was })
      | inr was ↦ rw (now, was) (record { w = some "holding"; row = refl; says = refl })
    ]
    | inr now ↦ elim (Bool-cases (was_holding floats i)) [
      | inl was ↦ rw (now, was) (record { w = some "clear"; row = refl; says = refl })
      | inr was ↦ rw (now, was) (record { w = i.watermark; row = refl; says = was })
    ]
  ]

  pass :
      (m : Moment) (i : StandingIntent floats) (intents : List (StandingIntent floats))
      (events : Events)
      → IsOn floats (probing m)
      → intent_of floats i.id intents ≡ some i
      → rows_of floats i.id intents ≤ 1
      → i.status ≡ "active"
      → i.condition_type ≡ "state"
      → IsAfter floats i.id
          (record { intents = intents; events = events; emitted = 0; error = none })
          (evaluate_state_conditions floats (probing m) intents events)
          (some (moved floats (m.value i.id) i))
          (edge floats (m.value i.id) i)
  unfolding evaluate_state_conditions
  pass m i intents events on found once active state =
      let mine =
        λ (r : StandingIntent floats). r.status == "active" && r.condition_type == "state" in
      let both : mine i ≡ true =
        ground (arith, eq_iff i.status "active", eq_iff i.condition_type "state") in
      evaluate_states-tracked floats (probing m) on i (select mine intents)
        (record { intents = intents; events = events; emitted = 0; error = none })
        (intent_of-select floats mine i.id i intents both found)
        (omega (arith, rows_of-select floats mine i.id intents, once)) found refl

  -- While the mode is on, the passes emit for an active state condition of the table as many events
  -- as its condition begins to hold over the answers of its probe, whatever the other intents are
  -- and whichever probes do not answer, if no other row has its id.
  pub watch_counts_rises :
      (moments : List Moment) (i : StandingIntent floats) (intents : List (StandingIntent floats))
      (events : Events)
      → All (λ m. IsOn floats (probing m)) moments
      → intent_of floats i.id intents ≡ some i
      → rows_of floats i.id intents ≤ 1
      → i.status ≡ "active"
      → i.condition_type ≡ "state"
      → events_of i.id (watch moments intents events)
        ≡ events_of i.id events
          + rises (was_holding floats i) (map (holds floats i) (answers i.id moments))
  unfolding holds
  watch_counts_rises [] i intents events on found once active state = omega arith
  watch_counts_rises (m ∷ rest) i intents events on found once active state =
      let t = evaluate_state_conditions floats (probing m) intents events in
      let h = pass m i intents events on.0 found once active state in
      let once_more : rows_of floats i.id t.intents ≤ 1 = omega (arith, h.counts, once) in
      elim (Option-cases (m.value i.id)) [
        | inl silent ↦
            let ih =
              watch_counts_rises rest i t.intents t.events on.1
                (h.row ∙ ap (λ v. some (moved floats v i)) silent) once_more active state in
            let new : edge floats (m.value i.id) i ≡ 0 = ap (λ v. edge floats v i) silent in
            rw silent (omega (arith, ih, h.events, new))
        | inr (x, said) ↦
            let k = moved-IsMarked i x in
            let j : StandingIntent floats = record i { watermark = k.w } in
            let later = map (holds floats i) (answers i.id rest) in
            let ih =
              watch_counts_rises rest j t.intents t.events on.1
                (h.row ∙ ap (λ v. some (moved floats v i)) said ∙ ap (λ r. some r) k.row) once_more
                active state in
            let tail : rises (was_holding floats j) later ≡ rises (holds floats i x) later =
              ap (λ b. rises b later) k.says in
            let new : edge floats (m.value i.id) i ≡ edge floats (some x) i =
              ap (λ v. edge floats v i) said in
            let asked : answers i.id (m ∷ rest) ≡ x ∷ answers i.id rest = rw said refl in
            omega (
              arith,
              ih,
              tail,
              new,
              h.events,
              rises-cons (was_holding floats i) (holds floats i x) later,
              ap (λ l. rises (was_holding floats i) (map (holds floats i) l)) asked,
            )
      ]
