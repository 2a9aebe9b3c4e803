-- ===== src/Ambient/Deliver/Budget.antt =====
-- The budget of interrupts (backend/app/ambient/deliver.py).
use concierge_agent.Prelude.{
  ℕ, suc, max, ◌+◌, ◌≤◌, ◌≡◌, ◌⊎◌, inl, inr, refl, String, Bool, true, false, ◌&&◌, ◌||◌, none,
  List, [], ◌∷◌, map, arith, Bool-cases, leb, length, contains, ◌==◌, nat_eq, string_eq, option_eq,
}
use concierge_agent.Prelude.Clock.{Instant, midnight}
use concierge_agent.Ambient.Events.{Uuid}
use concierge_agent.Ambient.Deliver.Outbox.{Sends, Delivery, Outbox}
use concierge_agent.Ambient.Deliver.Flush.{
  Bucket, Env, bucket_settings, is_interrupt, interrupts_today, pending, ids, deliver, demote,
  deliver_batch, triage_interrupts, triage_notifies, flush_tier1, digest_flush, presence_active,
}
use concierge_agent.Ambient.Deliver.Tick.{
  Counts, is_quiet, flush_interrupts, flush_digest, flush_bucket, digest_due,
}
use concierge_agent.Ambient.Deliver.Rows.{
  HasUniqueIds, KeepsIds, map-HasUniqueIds, count_where-map_le, count_where-map_add,
  count_batch-le_length, length-ids,
}

pub demote-KeepsIds : (batch : List Uuid) → KeepsIds (demote batch)
demote-KeepsIds batch r = elim (Bool-cases (contains r.id batch)) [
  | inl hit ↦ rw hit
  | inr miss ↦ rw miss
]

demote-is_interrupt :
    (b : Bucket) (start : Instant) (batch : List Uuid) (r : Delivery)
    → is_interrupt b start (demote batch r) ≡ true
    → is_interrupt b start r ≡ true
demote-is_interrupt b start batch r h = elim (Bool-cases (contains r.id batch)) [
  | inl hit ↦ rw hit at h
  | inr miss ↦ rw miss at h
]

-- A row that a batch makes an interrupt is one of the batch.
deliver-is_interrupt :
    (b : Bucket) (start now : Instant) (mode : String) (e : Sends) (batch : List Uuid)
    (r : Delivery)
    → is_interrupt b start (deliver now mode e batch r) ≡ true
    → (is_interrupt b start r ≡ true) ⊎ (contains r.id batch ≡ true)
deliver-is_interrupt b start now mode e batch r h = elim (Bool-cases (contains r.id batch)) [
  | inl hit ↦ inr hit
  | inr miss ↦ inl (rw miss at h)
]

-- A batch of another mode makes no interrupt.
deliver_other-is_interrupt :
    (b : Bucket) (start now : Instant) (mode : String) (e : Sends) (batch : List Uuid)
    (r : Delivery)
    → (mode == "interrupt") ≡ false
    → is_interrupt b start (deliver now mode e batch r) ≡ true
    → is_interrupt b start r ≡ true
deliver_other-is_interrupt b start now mode e batch r other h =
    elim (Bool-cases (contains r.id batch && r.delivered_at == none)) [
      | inr miss ↦ rw miss at h
      | inl hit ↦ ground (arith, other, hit, rw hit at h)
    ]

module _ (env : Env) (b : Bucket) where
  demote-interrupts_today :
      (batch : List Uuid) (table : Outbox)
      → interrupts_today b env.now (map (demote batch) table) ≤ interrupts_today b env.now table
  demote-interrupts_today batch table =
      count_where-map_le (is_interrupt b (midnight env.now)) (demote batch) table
        (demote-is_interrupt b (midnight env.now) batch)

  -- A batch adds at most its own length to the interrupts of the day.
  deliver_batch-interrupts_today :
      (rows : List Delivery) (table : Outbox)
      → HasUniqueIds table
      → interrupts_today b env.now (deliver_batch env "interrupt" rows table).1
        ≤ interrupts_today b env.now table + length rows
  unfolding deliver_batch
  deliver_batch-interrupts_today [] table h = omega arith
  deliver_batch-interrupts_today (r ∷ rows) table h = omega (
    arith,
    count_where-map_add (is_interrupt b (midnight env.now)) (λ s. contains s.id (ids (r ∷ rows)))
        (deliver env.now "interrupt" (env.dispatch "interrupt" (r ∷ rows)) (ids (r ∷ rows))) table
        (deliver-is_interrupt b (midnight env.now) env.now "interrupt"
          (env.dispatch "interrupt" (r ∷ rows)) (ids (r ∷ rows))),
    count_batch-le_length (ids (r ∷ rows)) table h,
    length-ids (r ∷ rows),
  )

  -- A batch of another mode adds none.
  deliver_batch_other :
      (mode : String) (rows : List Delivery) (table : Outbox)
      → (mode == "interrupt") ≡ false
      → interrupts_today b env.now (deliver_batch env mode rows table).1
        ≤ interrupts_today b env.now table
  unfolding deliver_batch
  deliver_batch_other mode [] table other = omega arith
  deliver_batch_other mode (r ∷ rows) table other =
      count_where-map_le (is_interrupt b (midnight env.now))
        (deliver env.now mode (env.dispatch mode (r ∷ rows)) (ids (r ∷ rows))) table
        (λ s.
          deliver_other-is_interrupt b (midnight env.now) env.now mode
            (env.dispatch mode (r ∷ rows)) (ids (r ∷ rows)) s other)

  flush_tier1-interrupts_today :
      (quiet force : Bool) (table : Outbox)
      → interrupts_today b env.now (flush_tier1 env b quiet force table).1
        ≤ interrupts_today b env.now table
  unfolding flush_tier1
  flush_tier1-interrupts_today quiet force table =
      let t = triage_notifies env.now (force || presence_active env b) quiet (pending b 1 table) in
      omega (
        arith,
        demote-interrupts_today (ids t.demoted) table,
        deliver_batch_other "notify" t.chosen (map (demote (ids t.demoted)) table) refl,
      )

  flush_digest-interrupts_today :
      (table : Outbox)
      → interrupts_today b env.now (flush_digest env b table).1 ≤ interrupts_today b env.now table
  unfolding flush_digest digest_flush
  flush_digest-interrupts_today table = elim (Bool-cases (is_quiet env b)) [
    | inl quiet ↦ rw (quiet, flush_digest) (omega arith)
    | inr loud ↦ elim (Bool-cases (digest_due env b table)) [
      | inr early ↦ rw (loud, early, flush_digest) (omega arith)
      | inl due ↦ rw (loud, due, flush_digest) (deliver_batch_other "digest" _ table refl)
    ]
  ]

-- The interrupts chosen stay within what is left of the budget.
pub length-triage_interrupts :
    (quiet : Bool) (budget used : ℕ) (rows : List Delivery)
    → used + length (triage_interrupts quiet budget used rows).chosen ≤ max used budget
unfolding triage_interrupts
length-triage_interrupts quiet budget used [] = omega arith
length-triage_interrupts quiet budget used (r ∷ rest) =
    elim (Bool-cases (quiet || leb budget used)) [
      | inl late ↦ rw (late, length) (length-triage_interrupts quiet budget used rest)
      | inr room ↦
          rw (room, length) (ground (arith, length-triage_interrupts quiet budget (suc used) rest))
    ]

-- Whatever is in the outbox, a pass over a bucket leaves its interrupts of the day within the
-- bucket's budget, or as many as they were, if no two rows share an id.
pub flush_bucket-interrupts_today :
    (env : Env) (b : Bucket) (out : Counts) (table : Outbox)
    → HasUniqueIds table
    → interrupts_today b env.now (flush_bucket env b (out, table)).1
      ≤ max (interrupts_today b env.now table) (bucket_settings env b).notification_budget
unfolding flush_bucket flush_interrupts flush_tier1 flush_digest digest_flush
flush_bucket-interrupts_today env b out table h =
    let used = interrupts_today b env.now table in
    let t =
      triage_interrupts (is_quiet env b) (bucket_settings env b).notification_budget used
        (pending b 0 table) in
    let t0 = map (demote (ids t.demoted)) table in
    let t1 = (flush_interrupts env b table).1.1 in
    let t2 = (flush_tier1 env b (is_quiet env b) false t1).1 in
    omega (
      arith,
      demote-interrupts_today env b (ids t.demoted) table,
      deliver_batch-interrupts_today env b t.chosen t0
          (map-HasUniqueIds (demote (ids t.demoted)) table (demote-KeepsIds (ids t.demoted)) h),
      length-triage_interrupts (is_quiet env b) (bucket_settings env b).notification_budget used
          (pending b 0 table),
      flush_tier1-interrupts_today env b (is_quiet env b) false t1,
      flush_digest-interrupts_today env b t2,
    )
