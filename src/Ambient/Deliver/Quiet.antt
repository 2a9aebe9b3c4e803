-- ===== src/Ambient/Deliver/Quiet.antt =====
-- Quiet hours (backend/app/ambient/deliver.py).
use concierge_agent.Prelude.{
  ℕ, ◌≡◌, refl, sym, ap, subst, ◌∙◌, String, Bool, true, false, ◌||◌, Option, List, [], ◌∷◌, map,
  arith, Bool-cases, contains, nat_eq, inl, inr,
}
use concierge_agent.Prelude.Clock.{Instant}
use concierge_agent.Ambient.Events.{Uuid}
use concierge_agent.Ambient.Deliver.Outbox.{Delivery, Outbox}
use concierge_agent.Ambient.Deliver.Flush.{
  Bucket, Env, bucket_settings, interrupts_today, pending, ids, demote, deliver_batch,
  triage_interrupts, triage_notifies, flush_tier1, presence_active, deadline_passed,
}
use concierge_agent.Ambient.Deliver.Tick.{
  Counts, is_quiet, flush_interrupts, flush_digest, flush_bucket,
}

-- When and where a row was delivered.
abbrev pub sent : Delivery → Option Instant × Option String
sent r = (r.delivered_at, r.channel)

demote-sent :
    (batch : List Uuid) (table : Outbox) → map sent (map (demote batch) table) ≡ map sent table
demote-sent batch [] = refl
demote-sent batch (r ∷ rest) = elim (Bool-cases (contains r.id batch)) [
  | inl hit ↦ rw (hit, demote-sent batch rest)
  | inr miss ↦ rw (miss, demote-sent batch rest)
]

triage_interrupts_quiet :
    (budget used : ℕ) (rows : List Delivery) → (triage_interrupts true budget used rows).chosen ≡ []
unfolding triage_interrupts
triage_interrupts_quiet budget used [] = refl
triage_interrupts_quiet budget used (r ∷ rest) = triage_interrupts_quiet budget used rest

triage_notifies_quiet :
    (now : Instant) (present : Bool) (rows : List Delivery)
    → (triage_notifies now present true rows).chosen ≡ []
unfolding triage_notifies
triage_notifies_quiet now present [] = refl
triage_notifies_quiet now present (r ∷ rest) =
    elim (Bool-cases (present || deadline_passed now r.deliver_no_later_than)) [
      | inl ready ↦ rw ready (triage_notifies_quiet now present rest)
      | inr early ↦ rw early (triage_notifies_quiet now present rest)
    ]

deliver_batch_nothing :
    (env : Env) (mode : String) (rows : List Delivery) (table : Outbox)
    → rows ≡ []
    → deliver_batch env mode rows table ≡ (0, table)
unfolding deliver_batch
deliver_batch_nothing env mode rows table h = rw h

module _ (env : Env) (b : Bucket) (table : Outbox) (quiet : is_quiet env b ≡ true) where
  flush_interrupts_quiet :
      ((flush_interrupts env b table).1.0 ≡ 0)
      × (map sent (flush_interrupts env b table).1.1 ≡ map sent table)
  unfolding flush_interrupts
  flush_interrupts_quiet =
      let budget = (bucket_settings env b).notification_budget in
      let used = interrupts_today b env.now table in
      let rows = pending b 0 table in
      let t = triage_interrupts (is_quiet env b) budget used rows in
      let nothing =
        deliver_batch_nothing env "interrupt" t.chosen (map (demote (ids t.demoted)) table) (
          subst (λ q. (triage_interrupts q budget used rows).chosen ≡ []) (sym quiet)
            (triage_interrupts_quiet budget used rows)) in
      (ap (λ p. p.0) nothing, ap (λ p. map sent p.1) nothing ∙ demote-sent (ids t.demoted) table)

  flush_digest_quiet : flush_digest env b table ≡ (0, table)
  unfolding flush_digest
  flush_digest_quiet = rw (quiet, flush_digest)

flush_tier1_quiet :
    (env : Env) (b : Bucket) (force : Bool) (table : Outbox)
    → ((flush_tier1 env b true force table).0 ≡ 0)
      × (map sent (flush_tier1 env b true force table).1 ≡ map sent table)
unfolding flush_tier1
flush_tier1_quiet env b force table =
    let present = force || presence_active env b in
    let rows = pending b 1 table in
    let t = triage_notifies env.now present true rows in
    let nothing =
      deliver_batch_nothing env "notify" t.chosen (map (demote (ids t.demoted)) table)
        (triage_notifies_quiet env.now present rows) in
    (ap (λ p. p.0) nothing, ap (λ p. map sent p.1) nothing ∙ demote-sent (ids t.demoted) table)

-- In quiet hours a pass over a bucket delivers nothing: the times and channels of delivery stay as
-- they were, and so do the counters of what was delivered.
pub flush_bucket_quiet :
    (env : Env) (b : Bucket) (out : Counts) (table : Outbox)
    → is_quiet env b ≡ true
    → (map sent (flush_bucket env b (out, table)).1 ≡ map sent table)
      × ((flush_bucket env b (out, table)).0.interrupt ≡ out.interrupt)
      × ((flush_bucket env b (out, table)).0.notify ≡ out.notify)
      × ((flush_bucket env b (out, table)).0.digest ≡ out.digest)
unfolding flush_bucket
flush_bucket_quiet env b out table quiet =
    let t1 = (flush_interrupts env b table).1.1 in
    let t2 = (flush_tier1 env b (is_quiet env b) false t1).1 in
    let (no_interrupt, kept1) = flush_interrupts_quiet env b table quiet in
    let (no_notify, kept2) =
      subst
        (λ q.
          ((flush_tier1 env b q false t1).0 ≡ 0)
          × (map sent (flush_tier1 env b q false t1).1 ≡ map sent t1))
        (sym quiet) (flush_tier1_quiet env b false t1) in
    let no_digest = flush_digest_quiet env b t2 quiet in
    (
      ap (λ p. map sent p.1) no_digest ∙ (kept2 ∙ kept1),
      omega (arith, no_interrupt),
      omega (arith, no_notify),
      omega (arith, ap (λ p. p.0) no_digest),
    )
