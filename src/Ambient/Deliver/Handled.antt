-- ===== src/Ambient/Deliver/Handled.antt =====
-- The pending interrupts under a pass (backend/app/ambient/deliver.py).
use concierge_agent.Prelude.{
  ℕ, suc, ◌≡◌, ◌⊎◌, inl, inr, refl, String, Bool, false, ◌&&◌, ◌||◌, none, List, [], ◌∷◌, map,
  arith, All, IsIn, IsIn-contains, Bool-cases, leb, contains, ◌==◌, nat_eq, option_eq,
}
use concierge_agent.Prelude.Clock.{Instant}
use concierge_agent.Ambient.Events.{Uuid}
use concierge_agent.Ambient.Deliver.Outbox.{Sends, Delivery, Outbox}
use concierge_agent.Ambient.Deliver.Flush.{
  Bucket, Env, bucket_settings, interrupts_today, leads, is_pending, pending, ids, demote, deliver,
  deliver_batch, triage_interrupts, triage_notifies, digest_flush, flush_tier1, presence_active,
}
use concierge_agent.Ambient.Deliver.Tick.{
  Counts, is_quiet, flush_interrupts, flush_digest, flush_bucket, digest_due,
}
use concierge_agent.Prelude.{select-IsIn}
use concierge_agent.Ambient.Deliver.Rows.{IsIn-map, order_by-IsIn}

-- No interrupt of the bucket waits in the table.
abbrev pub NoneWaits : Bucket → Outbox → Type 0
NoneWaits b table = All (λ r. is_pending b 0 r ≡ false) table

triage_interrupts-IsIn :
    (quiet : Bool) (budget used : ℕ) (r : Delivery) (rows : List Delivery)
    → IsIn r rows
    → IsIn r (triage_interrupts quiet budget used rows).chosen
      ⊎ IsIn r (triage_interrupts quiet budget used rows).demoted
unfolding triage_interrupts
triage_interrupts-IsIn quiet budget used r [] at = absurd at
triage_interrupts-IsIn quiet budget used r (s ∷ rest) at =
    elim (Bool-cases (quiet || leb budget used)) [
      | inl late ↦
          rw (late, IsIn)
            (elim at [
              | inl e ↦ inr (inl e)
              | inr more ↦ elim (triage_interrupts-IsIn quiet budget used r rest more) [
                | inl c ↦ inl c
                | inr d ↦ inr (inr d)
              ]
            ])
      | inr room ↦
          rw (room, IsIn)
            (elim at [
              | inl e ↦ inl (inl e)
              | inr more ↦ elim (triage_interrupts-IsIn quiet budget (suc used) r rest more) [
                | inl c ↦ inl (inr c)
                | inr d ↦ inr d
              ]
            ])
    ]

All-map_IsIn :
    (P : Delivery → Type 0) (f : Delivery → Delivery) (table : Outbox)
    → ((r : Delivery) → IsIn r table → P (f r))
    → All P (map f table)
All-map_IsIn P f [] h = tt
All-map_IsIn P f (r ∷ rest) h = (h r (inl refl), All-map_IsIn P f rest (λ s at. h s (inr at)))

All-map_twice :
    (P : Delivery → Type 0) (f g : Delivery → Delivery) (table : Outbox)
    → ((r : Delivery) → IsIn r table → P (f (g r)))
    → All P (map f (map g table))
All-map_twice P f g [] h = tt
All-map_twice P f g (r ∷ rest) h = (h r (inl refl), All-map_twice P f g rest (λ s at. h s (inr at)))

All-map :
    (P : Delivery → Type 0) (f : Delivery → Delivery) (table : Outbox)
    → ((r : Delivery) → P r → P (f r))
    → All P table
    → All P (map f table)
All-map P f [] h k = tt
All-map P f (r ∷ rest) h k = (h r k.0, All-map P f rest h k.1)

module _ (b : Bucket) where
  demote-settled :
      (batch : List Uuid) (r : Delivery)
      → is_pending b 0 r ≡ false
      → is_pending b 0 (demote batch r) ≡ false
  demote-settled batch r h = elim (Bool-cases (contains r.id batch)) [
    | inl hit ↦ rw hit
    | inr miss ↦ rw miss h
  ]

  deliver-settled :
      (now : Instant) (mode : String) (e : Sends) (batch : List Uuid) (r : Delivery)
      → is_pending b 0 r ≡ false
      → is_pending b 0 (deliver now mode e batch r) ≡ false
  deliver-settled now mode e batch r h =
      elim (Bool-cases (contains r.id batch && r.delivered_at == none)) [
        | inl hit ↦ rw hit (ground arith)
        | inr miss ↦ rw miss h
      ]

  demote_batch-settled :
      (batch : List Uuid) (r : Delivery) → IsIn r.id batch → is_pending b 0 (demote batch r) ≡ false
  demote_batch-settled batch r at = rw (IsIn-contains r.id batch at)

  deliver_demoted-settled :
      (now : Instant) (mode : String) (e : Sends) (batch demoted : List Uuid) (r : Delivery)
      → IsIn r.id batch
      → is_pending b 0 (deliver now mode e batch (demote demoted r)) ≡ false
  deliver_demoted-settled now mode e batch demoted r at =
      let known = IsIn-contains r.id batch at in
      elim (Bool-cases (contains r.id demoted)) [
        | inl hit ↦ rw hit (deliver-settled now mode e batch (record r { tier = 2 }) refl)
        | inr miss ↦ rw (miss, known) (ground arith)
      ]

  -- A batch settles its own rows, and what was settled.
  deliver_batch-settled :
      (env : Env) (mode : String) (rows : List Delivery) (demoted : List Uuid) (table : Outbox)
      → ((r : Delivery) → IsIn r table → IsIn r rows ⊎ (is_pending b 0 (demote demoted r) ≡ false))
      → NoneWaits b (deliver_batch env mode rows (map (demote demoted) table)).1
  unfolding deliver_batch
  deliver_batch-settled env mode [] demoted table h =
      All-map_IsIn (λ r. is_pending b 0 r ≡ false) (demote demoted) table
        (λ r at. elim (h r at) [ inl impossible ↦ absurd impossible | inr done ↦ done ])
  deliver_batch-settled env mode (c ∷ rows) demoted table h =
      let e = env.dispatch mode (c ∷ rows) in
      let batch = ids (c ∷ rows) in
      All-map_twice (λ r. is_pending b 0 r ≡ false) (deliver env.now mode e batch) (demote demoted)
        table
        (λ r at. elim (h r at) [
          | inl chosen ↦
              deliver_demoted-settled env.now mode e batch demoted r
                (IsIn-map (λ (s : Delivery). s.id) r (c ∷ rows) chosen)
          | inr done ↦ deliver-settled env.now mode e batch (demote demoted r) done
        ])

  -- A batch leaves what was settled.
  deliver_batch_keeps :
      (env : Env) (mode : String) (rows : List Delivery) (table : Outbox)
      → NoneWaits b table
      → NoneWaits b (deliver_batch env mode rows table).1
  unfolding deliver_batch
  deliver_batch_keeps env mode [] table h = h
  deliver_batch_keeps env mode (c ∷ rows) table h =
      All-map (λ r. is_pending b 0 r ≡ false)
        (deliver env.now mode (env.dispatch mode (c ∷ rows)) (ids (c ∷ rows))) table
        (deliver-settled env.now mode (env.dispatch mode (c ∷ rows)) (ids (c ∷ rows))) h

  flush_interrupts-NoneWaits :
      (env : Env) (table : Outbox) → NoneWaits b (flush_interrupts env b table).1.1
  unfolding flush_interrupts
  flush_interrupts-NoneWaits env table =
      let budget = (bucket_settings env b).notification_budget in
      let used = interrupts_today b env.now table in
      let rows = pending b 0 table in
      let t = triage_interrupts (is_quiet env b) budget used rows in
      deliver_batch-settled env "interrupt" t.chosen (ids t.demoted) table (λ r at.
        elim (Bool-cases (is_pending b 0 r)) [
          | inr idle ↦ inr (demote-settled (ids t.demoted) r idle)
          | inl waits ↦
              elim (triage_interrupts-IsIn (is_quiet env b) budget used r rows
                (order_by-IsIn leads r _ (select-IsIn (is_pending b 0) r table at waits))) [
                  | inl chosen ↦ inl chosen
                  | inr late ↦ inr (
                      demote_batch-settled (ids t.demoted) r
                        (IsIn-map (λ (s : Delivery). s.id) r t.demoted late))
                ]
        ])

  flush_tier1-NoneWaits :
      (env : Env) (quiet force : Bool) (table : Outbox)
      → NoneWaits b table
      → NoneWaits b (flush_tier1 env b quiet force table).1
  unfolding flush_tier1
  flush_tier1-NoneWaits env quiet force table h =
      let t = triage_notifies env.now (force || presence_active env b) quiet (pending b 1 table) in
      deliver_batch_keeps env "notify" t.chosen (map (demote (ids t.demoted)) table) (
        All-map (λ r. is_pending b 0 r ≡ false) (demote (ids t.demoted)) table
          (demote-settled (ids t.demoted)) h)

  flush_digest-NoneWaits :
      (env : Env) (table : Outbox) → NoneWaits b table → NoneWaits b (flush_digest env b table).1
  unfolding flush_digest digest_flush
  flush_digest-NoneWaits env table h = elim (Bool-cases (is_quiet env b)) [
    | inl quiet ↦ rw (quiet, flush_digest) h
    | inr loud ↦ elim (Bool-cases (digest_due env b table)) [
      | inr early ↦ rw (loud, early, flush_digest) h
      | inl due ↦ rw (loud, due, flush_digest) (deliver_batch_keeps env "digest" _ table h)
    ]
  ]

-- After a pass no interrupt of the bucket waits: each was delivered or put into the digest.
pub flush_bucket-NoneWaits :
    (env : Env) (b : Bucket) (out : Counts) (table : Outbox)
    → NoneWaits b (flush_bucket env b (out, table)).1
unfolding flush_bucket
flush_bucket-NoneWaits env b out table =
    flush_digest-NoneWaits b env _ (
      flush_tier1-NoneWaits b env (is_quiet env b) false _ (flush_interrupts-NoneWaits b env table))
