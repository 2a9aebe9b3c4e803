-- ===== src/Ambient/Triggers/States/Tracked.antt =====
-- One pass of the evaluator as one row of the table sees it (backend/app/ambient/triggers.py).
use concierge_agent.Prelude.{
  ℕ, suc, ◌+◌, ◌≡◌, refl, sym, ◌∙◌, subst, inl, inr, Bool, true, false, Option, none, some, ◌∷◌,
  arith, Bool-cases, Option-cases, if◌then◌else◌, ◌==◌, nat_eq, option_eq, ==_refl,
}
use concierge_agent.Ambient.Events.{Uuid, new_event, is_event_source}
use concierge_agent.Ambient.Events.Cases.{emit_event_plain, events_of, events_of-new_event}
use concierge_agent.Ambient.Triggers.States.{
  Floats, StandingIntent, Probing, holds, was_holding, state_emission, Pass, set_watermark,
  emit_edge, save_edge, evaluate_state,
}
use concierge_agent.Ambient.Triggers.States.Rows.{
  intent_of, rows_of, marked, intent_of-set_other, intent_of-set_own, rows_of-set,
}

module _ (floats : Floats) where
  open floats use {Float}

  -- The row after an answer of its probe, and whether an event is due.
  abbrev pub moved : Option Float → StandingIntent floats → StandingIntent floats
  moved none i = i
  moved (some x) i =
      if holds floats i x
      then (if was_holding floats i then i else marked floats true i)
      else (if was_holding floats i then marked floats false i else i)

  abbrev pub edge : Option Float → StandingIntent floats → ℕ
  edge none i = 0
  edge (some x) i = if holds floats i x then (if was_holding floats i then 0 else 1) else 0

  -- What a part of a pass does to the row of an id, and to the events of that intent.
  pub record IsAfter (id : Uuid) (s t : Pass floats) (now : Option (StandingIntent floats))
      (new : ℕ) : Type 0 where
    pub error : t.error ≡ none
    pub row : intent_of floats id t.intents ≡ now
    pub counts : rows_of floats id t.intents ≡ rows_of floats id s.intents
    pub events : events_of id t.events ≡ events_of id s.events + new

  -- An emission keeps the rows, and adds an event to its own intent.
  emits :
      (env : Probing floats) (j : StandingIntent floats) (s : Pass floats) (id : Uuid)
      → (env.emitting j.id).ambient_enabled ≡ true
      → s.error ≡ none
      → IsAfter id s
          (emit_edge floats env j s)
          (intent_of floats id s.intents)
          (if j.id == id then 1 else 0)
  unfolding emit_edge state_emission is_event_source
  emits env j s id on fine =
      let a = state_emission floats env j in
      let new = new_event (env.emitting j.id) a in
      let e : emit_edge floats env j s
          ≡ record s { events = new ∷ s.events; emitted = suc s.emitted } =
        simp (
          emit_event_plain (env.emitting j.id) (state_emission floats env j) s.events on refl refl
              refl refl,
          emit_edge,
        ) in
      subst
        (λ (t : Pass floats).
          IsAfter id s t (intent_of floats id s.intents) (if j.id == id then 1 else 0))
        (sym e)
        (record {
          error = fine;
          row = refl;
          counts = refl;
          events = events_of-new_event id (env.emitting j.id) a s.events;
        })

  abbrev set : Uuid → Bool → Pass floats → Pass floats
  set id now s = record s { intents = set_watermark floats id now s.intents }

  -- A round in which no exception is met.
  abbrev round : Probing floats → StandingIntent floats → Pass floats → Option Float → Pass floats
  round env j s none = s
  round env j s (some x) =
      if holds floats j x
      then (if was_holding floats j then s else set j.id true (emit_edge floats env j s))
      else (if was_holding floats j then set j.id false s else s)

  evaluate_state-round :
      (env : Probing floats) (j : StandingIntent floats) (s : Pass floats)
      → s.error ≡ none
      → (emit_edge floats env j s).error ≡ none
      → evaluate_state floats env j s ≡ round env j s (env.read j)
  unfolding evaluate_state save_edge
  evaluate_state-round env j s fine fine_after = elim (Option-cases (env.read j)) [
    | inl silent ↦ rw (silent, evaluate_state) refl
    | inr (x, said) ↦ elim (Bool-cases (holds floats j x)) [
      | inl now ↦ elim (Bool-cases (was_holding floats j)) [
        | inl was ↦ rw (said, evaluate_state) (simp (now, was, fine, save_edge))
        | inr was ↦ rw (said, evaluate_state) (simp (now, was, fine_after, save_edge))
      ]
      | inr now ↦ elim (Bool-cases (was_holding floats j)) [
        | inl was ↦ rw (said, evaluate_state) (simp (now, was, fine, save_edge))
        | inr was ↦ rw (said, evaluate_state) (simp (now, was, fine, save_edge))
      ]
    ]
  ]

  pub stays :
      (id : Uuid) (s : Pass floats)
      → s.error ≡ none
      → IsAfter id s s (intent_of floats id s.intents) 0
  stays id s fine = record { error = fine; row = refl; counts = refl; events = omega arith }

  set-other :
      (id other : Uuid) (now : Bool) (s t : Pass floats) (n : ℕ)
      → (other == id) ≡ false
      → IsAfter id s t (intent_of floats id s.intents) n
      → IsAfter id s (set other now t) (intent_of floats id s.intents) n
  set-other id other now s t n apart h = record {
    error = h.error;
    row = intent_of-set_other floats id other now t.intents apart ∙ h.row;
    counts = rows_of-set floats id other now t.intents ∙ h.counts;
    events = h.events;
  }

  set-own :
      (id : Uuid) (now : Bool) (i : StandingIntent floats) (s t : Pass floats) (n : ℕ)
      → IsAfter id s t (some i) n
      → IsAfter id s (set id now t) (some (marked floats now i)) n
  set-own id now i s t n h = record {
    error = h.error;
    row = intent_of-set_own floats id now i t.intents h.row;
    counts = rows_of-set floats id id now t.intents ∙ h.counts;
    events = h.events;
  }

  -- A round of another intent.
  pub evaluate_state-other :
      (env : Probing floats) (j : StandingIntent floats) (s : Pass floats) (id : Uuid)
      → (env.emitting j.id).ambient_enabled ≡ true
      → (j.id == id) ≡ false
      → s.error ≡ none
      → IsAfter id s (evaluate_state floats env j s) (intent_of floats id s.intents) 0
  evaluate_state-other env j s id on apart fine =
      let sent : IsAfter id s (emit_edge floats env j s) (intent_of floats id s.intents) 0 =
        rw apart at (emits env j s id on fine) in
      rw (evaluate_state-round env j s fine sent.error) (elim (Option-cases (env.read j)) [
        | inl silent ↦ rw silent (stays id s fine)
        | inr (x, said) ↦ elim (Bool-cases (holds floats j x)) [
          | inl now ↦ elim (Bool-cases (was_holding floats j)) [
            | inl was ↦ rw (said, now, was) (stays id s fine)
            | inr was ↦
                rw (said, now, was)
                  (set-other id j.id true s (emit_edge floats env j s) 0 apart sent)
          ]
          | inr now ↦ elim (Bool-cases (was_holding floats j)) [
            | inl was ↦ rw (said, now, was) (set-other id j.id false s s 0 apart (stays id s fine))
            | inr was ↦ rw (said, now, was) (stays id s fine)
          ]
        ]
      ])

  -- A round of the intent itself.
  pub evaluate_state-own :
      (env : Probing floats) (j : StandingIntent floats) (s : Pass floats)
      → (env.emitting j.id).ambient_enabled ≡ true
      → intent_of floats j.id s.intents ≡ some j
      → s.error ≡ none
      → IsAfter j.id s
          (evaluate_state floats env j s)
          (some (moved (env.read j) j))
          (edge (env.read j) j)
  evaluate_state-own env j s on here fine =
      let still : IsAfter j.id s s (some j) 0 =
        subst (λ r. IsAfter j.id s s r 0) here (stays j.id s fine) in
      let sent : IsAfter j.id s (emit_edge floats env j s) (some j) 1 =
        subst (λ r. IsAfter j.id s (emit_edge floats env j s) r 1) here
          (rw (==_refl j.id) at (emits env j s j.id on fine)) in
      rw (evaluate_state-round env j s fine sent.error) (elim (Option-cases (env.read j)) [
        | inl silent ↦ rw silent still
        | inr (x, said) ↦ elim (Bool-cases (holds floats j x)) [
          | inl now ↦ elim (Bool-cases (was_holding floats j)) [
            | inl was ↦ rw (said, now, was) still
            | inr was ↦
                rw (said, now, was) (set-own j.id true j s (emit_edge floats env j s) 1 sent)
          ]
          | inr now ↦ elim (Bool-cases (was_holding floats j)) [
            | inl was ↦ rw (said, now, was) (set-own j.id false j s s 0 still)
            | inr was ↦ rw (said, now, was) still
          ]
        ]
      ])
