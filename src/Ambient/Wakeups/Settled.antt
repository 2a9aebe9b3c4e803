-- ===== src/Ambient/Wakeups/Settled.antt =====
-- The wakeups that are no longer pending (backend/app/ambient/wakeups.py).
use concierge_agent.Prelude.{
  ◌≤◌, ◌≡◌, ◌≢◌, inl, inr, String, false, ◌&&◌, Option, none, some, List, [], ◌∷◌, map, arith, refl,
  IsIn, Bool-cases, Option-cases, find_where, select, leb, ◌==◌, nat_eq, string_eq, option_eq,
  ==_ne_iff,
}
use concierge_agent.Prelude.Clock.{Instant}
use concierge_agent.Ambient.Events.{
  Uuid, Events, Outcome, raised, deduped, stored, is_chain_guard, has_ended, emit_event,
}
use concierge_agent.Ambient.Wakeups.{
  AmbientWakeup, Wakeups, pending, settle, cancel_wakeup, is_stale, Ticking, Firing,
  wakeup_emission, expire, settle_outcome, fire_wakeup, fire_wakeups, fire_due_wakeups,
}

-- How the table after an operation stands to the table before: a row that is no longer pending is
-- the same, and no routine has more pending rows.
pub record IsSettled (t u : Wakeups) : Type 0 where
  pub kept : (w : AmbientWakeup) → IsIn w t → w.status ≢ "pending" → IsIn w u
  pub no_more : (routine : Uuid) → pending routine u ≤ pending routine t

IsSettled-refl : (t : Wakeups) → IsSettled t t
IsSettled-refl t = record { kept = λ w at done. at; no_more = λ routine. omega arith }

IsSettled-trans : (t u v : Wakeups) → IsSettled t u → IsSettled u v → IsSettled t v
IsSettled-trans t u v h k = record {
  kept = λ w at done. k.kept w (h.kept w at done) done;
  no_more = λ routine. omega (arith, h.no_more routine, k.no_more routine);
}

module _ (id : Uuid) (status : String) (fired : Option Instant) where
  settle_kept :
      (w : AmbientWakeup) (t : Wakeups)
      → IsIn w t
      → w.status ≢ "pending"
      → IsIn w (map (settle id status fired) t)
  settle_kept w [] at done = absurd at
  settle_kept w (x ∷ xs) (inl e) done =
      inl (rw (← e, ==_ne_iff w.status "pending" done) (ground arith))
  settle_kept w (x ∷ xs) (inr at) done = inr (settle_kept w xs at done)

  settle_no_more :
      (routine : Uuid) (t : Wakeups)
      → (status == "pending") ≡ false
      → pending routine (map (settle id status fired) t) ≤ pending routine t
  settle_no_more routine [] other = omega arith
  settle_no_more routine (x ∷ xs) other =
      let ih = settle_no_more routine xs other in
      elim (Bool-cases (x.id == id && x.status == "pending")) [
        | inl hit ↦ rw hit (ground (arith, other, hit, ih))
        | inr miss ↦ rw miss (ground (arith, ih))
      ]

  settle-IsSettled :
      (t : Wakeups) → (status == "pending") ≡ false → IsSettled t (map (settle id status fired) t)
  settle-IsSettled t other = record {
    kept = λ w. settle_kept w t;
    no_more = λ routine. settle_no_more routine t other;
  }

cancel_wakeup-IsSettled : (id : Uuid) (t : Wakeups) → IsSettled t (cancel_wakeup id t).1
unfolding cancel_wakeup
cancel_wakeup-IsSettled id t = elim (Option-cases (find_where (λ w. w.id == id) t)) [
  | inl missing ↦ rw (missing, cancel_wakeup) (IsSettled-refl t)
  | inr (w, found_row) ↦ elim (Bool-cases (w.status == "pending")) [
    | inl open_row ↦
        rw (found_row, open_row, cancel_wakeup) (settle-IsSettled id "cancelled" w.fired_at t refl)
    | inr closed ↦ rw (found_row, closed, cancel_wakeup) (IsSettled-refl t)
  ]
]

expire-IsSettled : (w : AmbientWakeup) (s : Firing) → IsSettled s.wakeups (expire w s).wakeups
unfolding expire
expire-IsSettled w s = settle-IsSettled w.id "expired" w.fired_at s.wakeups refl

settle_outcome-IsSettled :
    (now : Instant) (w : AmbientWakeup) (s : Firing) (o : Outcome)
    → IsSettled s.wakeups (settle_outcome now w s o).wakeups
unfolding settle_outcome
settle_outcome-IsSettled now w s (raised error) = elim (Bool-cases (is_chain_guard error)) [
  | inl guard ↦ rw guard (expire-IsSettled w s)
  | inr other ↦ rw other (IsSettled-refl s.wakeups)
]
settle_outcome-IsSettled now w s deduped = expire-IsSettled w s
settle_outcome-IsSettled now w s (stored e) =
    settle-IsSettled w.id "fired" (some now) s.wakeups refl

fire_wakeup-IsSettled :
    (env : Ticking) (w : AmbientWakeup) (s : Firing)
    → IsSettled s.wakeups (fire_wakeup env w s).wakeups
unfolding fire_wakeup
fire_wakeup-IsSettled env w s =
    let result = emit_event (env.emitting w.id) (wakeup_emission env w) s.events in
    let k = settle_outcome-IsSettled env.now w (record s { events = result.1 }) result.0 in
    elim (Bool-cases (is_stale env w)) [
      | inl stale ↦ rw stale (expire-IsSettled w s)
      | inr live ↦ rw live k
    ]

fire_wakeups-IsSettled :
    (env : Ticking) (due : List AmbientWakeup) (s : Firing)
    → IsSettled s.wakeups (fire_wakeups env due s).wakeups
unfolding fire_wakeups
fire_wakeups-IsSettled env [] s = IsSettled-refl s.wakeups
fire_wakeups-IsSettled env (w ∷ rest) s = elim (Bool-cases (has_ended s.error)) [
  | inl ended ↦ rw (ended, fire_wakeups) (IsSettled-refl s.wakeups)
  | inr running ↦
      let k =
        IsSettled-trans s.wakeups _ _ (fire_wakeup-IsSettled env w s)
          (fire_wakeups-IsSettled env rest (fire_wakeup env w s)) in
      rw (running, fire_wakeups) k
]

-- Neither a cancellation nor a tick changes a wakeup that is no longer pending, whatever the event
-- store answers, and neither gives a routine more pending wakeups.
pub wakeups-IsSettled :
    (id : Uuid) (env : Ticking) (t : Wakeups) (events : Events)
    → IsSettled t (cancel_wakeup id t).1 × IsSettled t (fire_due_wakeups env t events).wakeups
unfolding fire_due_wakeups
wakeups-IsSettled id env t events = (
  cancel_wakeup-IsSettled id t,
  fire_wakeups-IsSettled env (select (λ w. w.status == "pending" && leb w.due_at env.now) t)
      (record { fired = 0; wakeups = t; events = events; error = none }),
)
