-- ===== src/Ambient/Triggers/Schedules/Fired.antt =====
-- What a pass over the schedules does to the two tables (backend/app/ambient/triggers.py).
use concierge_agent.Prelude.{
  ℕ, suc, ◌+◌, ◌≤◌, ◌≡◌, ◌≢◌, refl, sym, ap, subst, inl, inr, List, [], ◌∷◌, map, arith, length,
  IsIn, select, IsIn-select, AreDistinctBy, map_key-IsIn, same_item, Bool-cases, Option-cases, ◌==◌,
  nat_eq, string_eq, ==_eq, ==_ne_iff,
}
use concierge_agent.Ambient.Events.{
  Uuid, AmbientEvent, Events, Emission, Env, Outcome, raised, deduped, stored, emit_event,
}
use concierge_agent.Ambient.Events.Cases.{emit_event_cases}
use concierge_agent.Ambient.Triggers.Schedules.{
  Trigger, Routine, Ticking, Tables, schedule_due, is_scheduled, change, mark_fired,
  schedule_emission, settle, fire_trigger, evaluate_trigger, evaluate_triggers, record_failure,
  evaluate_routine, evaluate_routines, evaluate_schedules,
}

-- A pass over the routine with this id: rows with another id stay, and the events grow by at least
-- what was fired.
pub record IsAbout (id : Uuid) (fired : ℕ) (db db' : Tables) : Type 0 where
  pub others : (r : Routine) → r.id ≢ id → IsIn r db.routines → IsIn r db'.routines
  pub grown : length db.events + fired ≤ length db'.events

IsAbout-refl : (id : Uuid) (db : Tables) → IsAbout id 0 db db
IsAbout-refl id db = record { others = λ r other at. at; grown = omega arith }

IsAbout-trans :
    (id : Uuid) (m n : ℕ) (a b c : Tables)
    → IsAbout id m a b
    → IsAbout id n b c
    → IsAbout id (m + n) a c
IsAbout-trans id m n a b c h k = record {
  others = λ r other at. k.others r other (h.others r other at);
  grown = omega (arith, h.grown, k.grown);
}

change-others :
    (id : Uuid) (f : Routine → Routine) (r : Routine) (rows : List Routine)
    → r.id ≢ id
    → IsIn r rows
    → IsIn r (change id f rows)
unfolding change
change-others id f r [] other at = absurd at
change-others id f r (x ∷ xs) other (inl e) = inl (rw (← e, ==_ne_iff r.id id other))
change-others id f r (x ∷ xs) other (inr at) = inr (change-others id f r xs other at)

-- An emission adds one event if it stores one, and none otherwise.
emit_event-length :
    (env : Env) (a : Emission) (events : Events)
    → ((e : AmbientEvent)
        → (emit_event env a events).0 ≡ stored e
        → length (emit_event env a events).1 ≡ suc (length events))
      × (length events ≤ length (emit_event env a events).1)
emit_event-length env a events = elim (emit_event_cases env a events) [
  | inl kept ↦ (λ e h. absurd (kept.1 e h), omega (arith, ap (λ (l : Events). length l) kept.0))
  | inr (e, ok) ↦
      let longer = ap (λ (p : Outcome × Events). length p.1) e in
      (λ x h. longer, omega (arith, longer))
]

module _ (env : Ticking) (id : Uuid) where
  settle-IsAbout :
      (i : ℕ) (t : Trigger) (db : Tables) (events : Events) (o : Outcome)
      → ((e : AmbientEvent) → o ≡ stored e → length events ≡ suc (length db.events))
      → length db.events ≤ length events
      → IsAbout id
          (settle env id i t (record db { events = events }) o).fired
          db
          (settle env id i t (record db { events = events }) o).tables
  unfolding settle
  settle-IsAbout i t db events (raised error) one more = record {
    others = λ r other at. at;
    grown = omega arith;
  }
  settle-IsAbout i t db events deduped one more = record {
    others = λ r other at. at;
    grown = omega arith;
  }
  settle-IsAbout i t db events (stored e) one more = record {
    others = λ r other at. change-others id (mark_fired env.now i t) r db.routines other at;
    grown = omega (arith, one e refl);
  }

  fire_trigger-IsAbout :
      (i : ℕ) (t : Trigger) (db : Tables)
      → IsAbout id (fire_trigger env id i t db).fired db (fire_trigger env id i t db).tables
  unfolding fire_trigger
  fire_trigger-IsAbout i t db =
      let a = schedule_emission env id i t in
      let (one, more) = emit_event-length (env.emitting id i) a db.events in
      settle-IsAbout i t db (emit_event (env.emitting id i) a db.events).1
        (emit_event (env.emitting id i) a db.events).0 one more

module _ (env : Ticking) (r : Routine) where
  evaluate_trigger-IsAbout :
      (i : ℕ) (t : Trigger) (db : Tables)
      → IsAbout r.id (evaluate_trigger env r i t db).fired db (evaluate_trigger env r i t db).tables
  unfolding evaluate_trigger
  evaluate_trigger-IsAbout i t db = elim (Bool-cases (is_scheduled t)) [
    | inr other ↦ rw (other, evaluate_trigger) (IsAbout-refl r.id db)
    | inl ours ↦
        elim (Option-cases
          (schedule_due env.calendar t r.last_fired_at r.stagger_offset_s env.now)) [
            | inl bad ↦ rw (ours, bad, evaluate_trigger) (IsAbout-refl r.id db)
            | inr (due, known) ↦ elim (Bool-cases due) [
              | inl now ↦
                  rw (ours, known, now, evaluate_trigger) (fire_trigger-IsAbout env r.id i t db)
              | inr later ↦ rw (ours, known, later, evaluate_trigger) (IsAbout-refl r.id db)
            ]
          ]
  ]

  evaluate_triggers-IsAbout :
      (i : ℕ) (ts : List Trigger) (db : Tables)
      → IsAbout r.id
          (evaluate_triggers env r i ts db).fired
          db
          (evaluate_triggers env r i ts db).tables
  unfolding evaluate_triggers
  evaluate_triggers-IsAbout i [] db = IsAbout-refl r.id db
  evaluate_triggers-IsAbout i (t ∷ rest) db =
      let one = evaluate_trigger env r i t db in
      let h = evaluate_trigger-IsAbout i t db in
      let k = evaluate_triggers-IsAbout (suc i) rest one.tables in
      elim (Bool-cases one.raises) [
        | inl bad ↦ rw (bad, evaluate_triggers) h
        | inr well ↦ rw (well, evaluate_triggers) (IsAbout-trans r.id _ _ db one.tables _ h k)
      ]

  evaluate_routine-IsAbout :
      (db : Tables) → IsAbout r.id (evaluate_routine env r db).0 db (evaluate_routine env r db).1
  unfolding evaluate_routine
  evaluate_routine-IsAbout db =
      let pass = evaluate_triggers env r 0 r.triggers db in
      let h = evaluate_triggers-IsAbout 0 r.triggers db in
      let failed : IsAbout r.id 0 db (record pass.tables {
        routines = change r.id (record_failure (env.failure r.id)) pass.tables.routines;
      }) =
        record {
          others = λ x other at.
              change-others r.id (record_failure (env.failure r.id)) x pass.tables.routines other
                (h.others x other at);
          grown = omega (arith, h.grown);
        } in
      elim (Bool-cases pass.raises) [
        | inl bad ↦ rw (bad, evaluate_routine) failed
        | inr well ↦ rw (well, evaluate_routine) h
      ]

abbrev routine_ids : List Routine → List Uuid
routine_ids rs = map (λ (r : Routine). r.id) rs

evaluate_routines_others :
    (env : Ticking) (rs : List Routine) (db : Tables)
    → ((x : Routine)
        → ¬ (IsIn x.id (routine_ids rs))
        → IsIn x db.routines
        → IsIn x (evaluate_routines env rs db).1.routines)
      × (length db.events + (evaluate_routines env rs db).0
          ≤ length (evaluate_routines env rs db).1.events)
unfolding evaluate_routines
evaluate_routines_others env [] db = (λ x other at. at, omega arith)
evaluate_routines_others env (r ∷ rest) db =
    let h = evaluate_routine-IsAbout env r db in
    let (kept, grown) = evaluate_routines_others env rest (evaluate_routine env r db).1 in
    (
      λ x other at. kept x (λ i. other (inr i)) (h.others x (λ e. other (inl e)) at),
      omega (arith, h.grown, grown),
    )

abbrev pub HasUniqueRoutines : List Routine → Type 0
HasUniqueRoutines rs = AreDistinctBy (λ (r : Routine). r.id) rs

-- A pass over the schedules leaves every routine that is not active as it is, if no two routines
-- share an id; and the event table grows by at least the number that the pass returns.
pub evaluate_schedules_keeps :
    (env : Ticking) (db : Tables)
    → HasUniqueRoutines db.routines
    → ((x : Routine)
        → IsIn x db.routines
        → x.status ≢ "active"
        → IsIn x (evaluate_schedules env db).1.routines)
      × (length db.events + (evaluate_schedules env db).0
          ≤ length (evaluate_schedules env db).1.events)
unfolding evaluate_schedules
evaluate_schedules_keeps env db unique =
    let active = λ (r : Routine). r.status == "active" in
    let id = λ (r : Routine). r.id in
    let (kept, grown) = evaluate_routines_others env (select active db.routines) db in
    (
      λ x at idle.
          kept x
            (λ listed.
              let (y, chosen, e) = map_key-IsIn id x.id (select active db.routines) listed in
              let (there, runs) = IsIn-select active y db.routines chosen in
              idle (
                subst (λ (z : Routine). z.status ≡ "active")
                  (sym (same_item id db.routines x y unique at there e))
                  (==_eq y.status "active" runs)))
            at,
      grown,
    )
