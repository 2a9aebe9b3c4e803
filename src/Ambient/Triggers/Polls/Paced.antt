-- ===== src/Ambient/Triggers/Polls/Paced.antt =====
-- The pace of the pollers (backend/app/ambient/triggers.py).
use concierge_agent.Prelude.{
  ℕ, zero, suc, ◌+◌, ◌*◌, ◌≤◌, ap, inl, inr, String, Bool, Option, none, List, [], ◌∷◌, map, arith,
  All, count_where, option_eq, Bool-cases, Option-cases, select, ◌==◌, nat_eq, string_eq,
  if◌then◌else◌, ◌&&◌,
}
use concierge_agent.Prelude.Clock.{Instant}
use concierge_agent.Ambient.Events.{
  Uuid, Events, Env, Outcome, raised, deduped, stored, has_ended, emit_event,
}
use concierge_agent.Ambient.Events.Cases.{emit_event_cases, events_of, events_of-new_event}
use concierge_agent.Ambient.Triggers.Polls.{
  StandingIntent, Polling, Pass, items_per_check, checked, expire, item_emission, settle_item,
  emit_items, change, check_intent, poll_intent, poll_intents, poll_due_intents, is_registered,
  has_passed, is_due,
}

-- The interval stands between its bounds, and the multiplier is one or more.
pub record IsPaced (i : StandingIntent) : Type 0 where
  pub ordered : i.base_interval_s ≤ i.max_interval_s
  pub at_least : i.base_interval_s ≤ i.current_interval_s
  pub at_most : i.current_interval_s ≤ i.max_interval_s
  pub grows : (n : ℕ) → n ≤ i.backoff n

checked-IsPaced :
    (now : Instant) (items : List String) (mark : Option String) (i : StandingIntent)
    → IsPaced i
    → IsPaced (checked now items mark i)
unfolding checked
checked-IsPaced now [] mark i h = record {
  ordered = h.ordered;
  at_least = omega (arith, h.ordered, h.at_least, h.grows i.current_interval_s);
  at_most = omega arith;
  grows = h.grows;
}
checked-IsPaced now (x ∷ xs) mark i h = record {
  ordered = h.ordered;
  at_least = omega arith;
  at_most = h.ordered;
  grows = h.grows;
}

expire-IsPaced : (i : StandingIntent) → IsPaced i → IsPaced (expire i)
expire-IsPaced i h = record {
  ordered = h.ordered;
  at_least = h.at_least;
  at_most = h.at_most;
  grows = h.grows;
}

-- How many rows have an id.
abbrev pub rows_of : Uuid → List StandingIntent → ℕ
rows_of id rows = count_where (λ (r : StandingIntent). r.id == id) rows

-- How a pass stands to the pass before: paced rows stay paced, and of an intent at most so many
-- events are new.
record IsWithin (limit : Uuid → ℕ) (s t : Pass) : Type 0 where
  paced : All IsPaced s.intents → All IsPaced t.intents
  few : (id : Uuid) → events_of id t.events ≤ events_of id s.events + limit id

abbrev none_new : Uuid → ℕ
none_new id = 0

abbrev only : Uuid → ℕ → Uuid → ℕ
only mine n id = if mine == id then n else 0

abbrev sum_of : (Uuid → ℕ) → (Uuid → ℕ) → Uuid → ℕ
sum_of f g id = f id + g id

IsWithin-refl : (limit : Uuid → ℕ) (s : Pass) → IsWithin limit s s
IsWithin-refl limit s = record { paced = λ h. h; few = λ id. omega arith }

IsWithin-trans :
    (f g : Uuid → ℕ) (s t u : Pass) → IsWithin f s t → IsWithin g t u → IsWithin (sum_of f g) s u
IsWithin-trans f g s t u h k = record {
  paced = λ p. k.paced (h.paced p);
  few = λ id. omega (arith, h.few id, k.few id);
}

IsWithin-le :
    (f g : Uuid → ℕ) (s t : Pass) → ((id : Uuid) → f id ≤ g id) → IsWithin f s t → IsWithin g s t
IsWithin-le f g s t le h = record { paced = h.paced; few = λ id. omega (arith, h.few id, le id) }

change-All :
    (id : Uuid) (f : StandingIntent → StandingIntent) (rows : List StandingIntent)
    → ((i : StandingIntent) → IsPaced i → IsPaced (f i))
    → All IsPaced rows
    → All IsPaced (map (λ (r : StandingIntent). if r.id == id then f r else r) rows)
change-All id f [] keeps h = tt
change-All id f (r ∷ rest) keeps h = elim (Bool-cases (r.id == id)) [
  | inl hit ↦ rw hit (keeps r h.0, change-All id f rest keeps h.1)
  | inr miss ↦ rw miss (h.0, change-All id f rest keeps h.1)
]

change-IsWithin :
    (id : Uuid) (f : StandingIntent → StandingIntent) (s : Pass)
    → ((i : StandingIntent) → IsPaced i → IsPaced (f i))
    → IsWithin none_new s (change id f s)
unfolding change
change-IsWithin id f s keeps = record {
  paced = change-All id f s.intents keeps;
  few = λ id. omega arith;
}

-- An emission adds an event to its own intent only.
emit_event-few :
    (env : Env) (mine : Uuid) (item : String) (events : Events) (id : Uuid)
    → events_of id (emit_event env (item_emission mine item) events).1
      ≤ events_of id events + only mine 1 id
unfolding item_emission
emit_event-few env mine item events id =
    let a = item_emission mine item in
    elim (emit_event_cases env a events) [
      | inl kept ↦ omega (arith, ap (events_of id) kept.0)
      | inr (e, ok) ↦ omega (
        arith,
        ap (λ (p : Outcome × Events). events_of id p.1) e,
        events_of-new_event id env a events,
      )
    ]

settle_item-IsWithin : (s : Pass) (o : Outcome) → IsWithin none_new s (settle_item s o)
unfolding settle_item
settle_item-IsWithin s (raised error) = record { paced = λ h. h; few = λ id. omega arith }
settle_item-IsWithin s deduped = IsWithin-refl none_new s
settle_item-IsWithin s (stored e) = record { paced = λ h. h; few = λ id. omega arith }

only-sum :
    (mine : Uuid) (n : ℕ) (id : Uuid)
    → only mine 1 id + none_new id + only mine n id ≤ only mine (suc n) id
only-sum mine n id = ground arith

only-le : (mine : Uuid) (n : ℕ) (id : Uuid) → only mine 1 id + none_new id ≤ only mine (suc n) id
only-le mine n id = ground arith

module _ (env : Polling) where
  emit_items-IsWithin :
      (id : Uuid) (n : ℕ) (items : List String) (s : Pass)
      → IsWithin (only id n) s (emit_items env id n items s)
  unfolding emit_items
  emit_items-IsWithin id zero items s = IsWithin-refl (only id 0) s
  emit_items-IsWithin id (suc n) [] s = IsWithin-refl (only id (suc n)) s
  emit_items-IsWithin id (suc n) (item ∷ rest) s =
      let result = emit_event (env.emitting id n) (item_emission id item) s.events in
      let s1 : Pass = record s { events = result.1 } in
      let t = settle_item s1 result.0 in
      let first : IsWithin (only id 1) s s1 = record {
        paced = λ h. h;
        few = emit_event-few (env.emitting id n) id item s.events;
      } in
      let h = IsWithin-trans (only id 1) none_new s s1 t first (settle_item-IsWithin s1 result.0) in
      let up_to = sum_of (only id 1) none_new in
      elim (Bool-cases (has_ended t.error)) [
        | inl ended ↦
            rw (ended, emit_items) (IsWithin-le up_to (only id (suc n)) s t (only-le id n) h)
        | inr running ↦
            let k = IsWithin-trans up_to (only id n) s t _ h (emit_items-IsWithin id n rest t) in
            rw (running, emit_items)
              (IsWithin-le (sum_of up_to (only id n)) (only id (suc n)) s _ (only-sum id n) k)
      ]

  check_intent-IsWithin :
      (i : StandingIntent) (s : Pass)
      → IsWithin (only i.id items_per_check) s (check_intent env i s)
  unfolding check_intent
  check_intent-IsWithin i s = elim (Option-cases (env.poll i)) [
    | inl broken ↦ rw (broken, check_intent) (IsWithin-refl (only i.id items_per_check) s)
    | inr (answer, read) ↦
        let t = change i.id (checked env.now answer.0 answer.1) s in
        let limit = only i.id items_per_check in
        let k =
          IsWithin-trans none_new limit s t _
            (change-IsWithin i.id (checked env.now answer.0 answer.1) s
              (checked-IsPaced env.now answer.0 answer.1))
            (emit_items-IsWithin i.id items_per_check answer.0 t) in
        rw (read, check_intent)
          (IsWithin-le (sum_of none_new limit) limit s _ (λ id. omega arith) k)
  ]

  poll_intent-IsWithin :
      (i : StandingIntent) (s : Pass) → IsWithin (only i.id items_per_check) s (poll_intent env i s)
  unfolding poll_intent
  poll_intent-IsWithin i s =
      let limit = only i.id items_per_check in
      elim (Bool-cases (is_registered env i.source)) [
        | inr unknown ↦ rw (unknown, poll_intent) (IsWithin-refl limit s)
        | inl known ↦ elim (Bool-cases (has_passed env.now i.expires_at)) [
          | inl over ↦
              rw (known, over, poll_intent)
                (IsWithin-le none_new limit s (change i.id expire s) (λ id. omega arith)
                  (change-IsWithin i.id expire s expire-IsPaced))
          | inr open_still ↦ elim (Bool-cases (is_due env.now i)) [
            | inr early ↦ rw (known, open_still, early, poll_intent) (IsWithin-refl limit s)
            | inl due ↦ rw (known, open_still, due, poll_intent) (check_intent-IsWithin i s)
          ]
        ]
      ]

  abbrev rows_limit : List StandingIntent → Uuid → ℕ
  rows_limit rows id = items_per_check * rows_of id rows

  rows_limit-cons :
      (i : StandingIntent) (rest : List StandingIntent) (id : Uuid)
      → only i.id items_per_check id + rows_limit rest id ≤ rows_limit (i ∷ rest) id
  rows_limit-cons i rest id = elim (Bool-cases (i.id == id)) [
    | inl same ↦ rw same (omega arith)
    | inr other ↦ rw other (omega arith)
  ]

  poll_intents-IsWithin :
      (rows : List StandingIntent) (s : Pass)
      → IsWithin (rows_limit rows) s (poll_intents env rows s)
  unfolding poll_intents
  poll_intents-IsWithin [] s = IsWithin-refl (rows_limit []) s
  poll_intents-IsWithin (i ∷ rest) s = elim (Bool-cases (has_ended s.error)) [
    | inl ended ↦ rw (ended, poll_intents) (IsWithin-refl (rows_limit (i ∷ rest)) s)
    | inr running ↦
        let first = only i.id items_per_check in
        let k =
          IsWithin-trans first (rows_limit rest) s _ _ (poll_intent-IsWithin i s)
            (poll_intents-IsWithin rest (poll_intent env i s)) in
        rw (running, poll_intents)
          (IsWithin-le (sum_of first (rows_limit rest)) (rows_limit (i ∷ rest)) s _
            (rows_limit-cons i rest) k)
  ]

  select-rows_of :
      (p : StandingIntent → Bool) (id : Uuid) (rows : List StandingIntent)
      → rows_of id (select p rows) ≤ rows_of id rows
  select-rows_of p id [] = omega arith
  select-rows_of p id (r ∷ rest) = ground (arith, select-rows_of p id rest)

  -- A pass keeps the interval of every intent between its base and its maximum, if each was and its
  -- multiplier is one or more; and it adds at most twenty events to each intent, if no two rows
  -- share an id.
  pub poll_due_intents-IsPaced :
      (intents : List StandingIntent) (events : Events)
      → All IsPaced intents
      → ((id : Uuid) → rows_of id intents ≤ 1)
      → All IsPaced (poll_due_intents env intents events).intents
        × ((id : Uuid)
            → events_of id (poll_due_intents env intents events).events
              ≤ events_of id events + items_per_check)
  unfolding poll_due_intents
  poll_due_intents-IsPaced intents events h once =
      let mine = λ (i : StandingIntent). i.status == "active" && i.condition_type == "event" in
      let s : Pass = record { intents = intents; events = events; emitted = 0; error = none } in
      let k = poll_intents-IsWithin (select mine intents) s in
      (k.paced h, λ id. omega (arith, k.few id, select-rows_of mine id intents, once id))
