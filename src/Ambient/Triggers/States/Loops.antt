-- ===== src/Ambient/Triggers/States/Loops.antt =====
-- The loop over the conditions of a pass, for one of them (backend/app/ambient/triggers.py).
use concierge_agent.Prelude.{
  ℕ, ◌+◌, ◌≤◌, ◌≡◌, sym, ap, ◌∙◌, subst, inl, inr, true, Option, none, some, List, [], ◌∷◌, arith,
  Bool-cases, ◌==◌, nat_eq, string_eq, option_eq,
}
use concierge_agent.Ambient.Events.{Uuid}
use concierge_agent.Ambient.Triggers.States.{
  Floats, StandingIntent, Probing, Pass, evaluate_state, evaluate_states,
}
use concierge_agent.Ambient.Triggers.States.Rows.{intent_of, rows_of}
use concierge_agent.Ambient.Triggers.States.Tracked.{
  moved, edge, IsAfter, evaluate_state-other, evaluate_state-own, stays,
}

module _ (floats : Floats) where
  -- The mode is on.
  abbrev pub IsOn : Probing floats → Type 0
  IsOn env = (id : Uuid) → (env.emitting id).ambient_enabled ≡ true

  IsAfter-trans :
      (id : Uuid) (s t u : Pass floats) (r q : Option (StandingIntent floats)) (m n k : ℕ)
      → IsAfter floats id s t r m
      → IsAfter floats id t u q n
      → m + n ≡ k
      → IsAfter floats id s u q k
  IsAfter-trans id s t u r q m n k h g sum = record {
    error = g.error;
    row = g.row;
    counts = g.counts ∙ h.counts;
    events = omega (arith, h.events, g.events, sum);
  }

  module _ (env : Probing floats) (on : IsOn env) where
    evaluate_states-cons :
        (j : StandingIntent floats) (rest : List (StandingIntent floats)) (s : Pass floats)
        → s.error ≡ none
        → evaluate_states floats env (j ∷ rest) s
          ≡ evaluate_states floats env rest (evaluate_state floats env j s)
    unfolding evaluate_states
    evaluate_states-cons j rest s fine = simp (fine, evaluate_states)

    evaluate_states-absent :
        (id : Uuid) (rows : List (StandingIntent floats)) (s : Pass floats)
        → rows_of floats id rows ≡ 0
        → s.error ≡ none
        → IsAfter floats id s (evaluate_states floats env rows s) (intent_of floats id s.intents) 0
    unfolding evaluate_states
    evaluate_states-absent id [] s absent fine = stays floats id s fine
    evaluate_states-absent id (j ∷ rest) s absent fine = elim (Bool-cases (j.id == id)) [
      | inl here ↦ absurd (ground (arith, here, absent))
      | inr apart ↦
          let t = evaluate_state floats env j s in
          let h = evaluate_state-other floats env j s id (on j.id) apart fine in
          let g = evaluate_states-absent id rest t (rw apart at absent) h.error in
          subst (λ u. IsAfter floats id s u (intent_of floats id s.intents) 0)
            (sym (evaluate_states-cons j rest s fine))
            (IsAfter-trans id s t (evaluate_states floats env rest t)
              (intent_of floats id s.intents) (intent_of floats id s.intents) 0 0 0 h
              (subst (λ r. IsAfter floats id t (evaluate_states floats env rest t) r 0) h.row g)
              (omega arith))
    ]

    pub evaluate_states-tracked :
        (i : StandingIntent floats) (rows : List (StandingIntent floats)) (s : Pass floats)
        → intent_of floats i.id rows ≡ some i
        → rows_of floats i.id rows ≤ 1
        → intent_of floats i.id s.intents ≡ some i
        → s.error ≡ none
        → IsAfter floats i.id s
            (evaluate_states floats env rows s)
            (some (moved floats (env.read i) i))
            (edge floats (env.read i) i)
    evaluate_states-tracked i [] s found once here fine = absurd cc
    evaluate_states-tracked i (j ∷ rest) s found once here fine = elim (Bool-cases (j.id == i.id)) [
      | inl hit ↦
          let same : j ≡ i = let k : some j ≡ some i = rw hit at found in cc in
          let t = evaluate_state floats env i s in
          let n = edge floats (env.read i) i in
          let next = some (moved floats (env.read i) i) in
          let h = evaluate_state-own floats env i s (on i.id) here fine in
          let absent : rows_of floats i.id rest ≡ 0 = ground (arith, hit, once) in
          let g = evaluate_states-absent i.id rest t absent h.error in
          subst (λ u. IsAfter floats i.id s u next n)
            (sym (
              ap (λ r. evaluate_states floats env (r ∷ rest) s) same
              ∙ evaluate_states-cons i rest s fine))
            (IsAfter-trans i.id s t (evaluate_states floats env rest t) next next n 0 n h
              (subst (λ r. IsAfter floats i.id t (evaluate_states floats env rest t) r 0) h.row g)
              (omega arith))
      | inr apart ↦
          let t = evaluate_state floats env j s in
          let n = edge floats (env.read i) i in
          let next = some (moved floats (env.read i) i) in
          let h = evaluate_state-other floats env j s i.id (on j.id) apart fine in
          let g =
            evaluate_states-tracked i rest t (rw apart at found) (rw apart at once) (h.row ∙ here)
              h.error in
          subst (λ u. IsAfter floats i.id s u next n) (sym (evaluate_states-cons j rest s fine))
            (IsAfter-trans i.id s t (evaluate_states floats env rest t)
              (intent_of floats i.id s.intents) next 0 n n h g (omega arith))
    ]
