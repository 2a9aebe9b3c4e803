-- ===== src/Ambient/Deliver/Passes.antt =====
-- The passes over the outbox, and its ledger (backend/app/ambient/deliver.py).
use concierge_agent.Prelude.{
  ℕ, suc, inl, inr, Bool, true, false, ◌||◌, Option, none, List, [], ◌∷◌, map, arith, IsIn,
  Bool-cases, leb, ltb, select, option_eq, nat_eq, ==_eq,
}
use concierge_agent.Prelude.Clock.{Instant}
use concierge_agent.Ambient.Events.{Uuid}
use concierge_agent.Ambient.Deliver.Outbox.{Delivery, Outbox, order_by}
use concierge_agent.Ambient.Deliver.Flush.{
  Bucket, Env, bucket_settings, interrupts_today, leads, is_pending, pending, ids, demote,
  deadline_passed, triage_interrupts, triage_notifies, digest_flush, flush_tier1, presence_active,
}
use concierge_agent.Ambient.Deliver.Tick.{
  Counts, is_quiet, flush_interrupts, flush_digest, flush_bucket, digest_due, flush_owners,
  flush_deliveries, on_user_returned, owner_leads, open_owners,
}
use concierge_agent.Prelude.{IsIn-select}
use concierge_agent.Ambient.Deliver.Rows.{HasUniqueIds, IsIn-order_by}
use concierge_agent.Ambient.Deliver.Ledger.{
  IsKept, IsKept-refl, IsKept-trans, AreOpen, demote-IsKept, deliver_batch-IsKept,
}

triage_interrupts_demoted :
    (quiet : Bool) (budget used : ℕ) (r : Delivery) (rows : List Delivery)
    → IsIn r (triage_interrupts quiet budget used rows).demoted
    → IsIn r rows
unfolding triage_interrupts
triage_interrupts_demoted quiet budget used r [] at = absurd at
triage_interrupts_demoted quiet budget used r (s ∷ rest) at =
    elim (Bool-cases (quiet || leb budget used)) [
      | inl late ↦ elim (rw (late, IsIn) at at) [
        | inl e ↦ inl e
        | inr more ↦ inr (triage_interrupts_demoted quiet budget used r rest more)
      ]
      | inr room ↦
          inr (triage_interrupts_demoted quiet budget (suc used) r rest (rw (room, IsIn) at at))
    ]

triage_notifies_demoted :
    (now : Instant) (present quiet : Bool) (r : Delivery) (rows : List Delivery)
    → IsIn r (triage_notifies now present quiet rows).demoted
    → IsIn r rows
unfolding triage_notifies
triage_notifies_demoted now present quiet r [] at = absurd at
triage_notifies_demoted now present quiet r (s ∷ rest) at =
    elim (Bool-cases (present || deadline_passed now s.deliver_no_later_than)) [
      | inr early ↦ inr (triage_notifies_demoted now present quiet r rest (rw (early, IsIn) at at))
      | inl ready ↦ elim (Bool-cases quiet) [
        | inr loud ↦
            inr (triage_notifies_demoted now present quiet r rest (rw (ready, loud, IsIn) at at))
        | inl silent ↦ elim (rw (ready, silent, IsIn) at at) [
          | inl e ↦ inl e
          | inr more ↦ inr (triage_notifies_demoted now present quiet r rest more)
        ]
      ]
    ]

pending-AreOpen : (b : Bucket) (tier : ℕ) (t : Outbox) → AreOpen t (pending b tier t)
pending-AreOpen b tier t s at =
    let (there, waits) =
      IsIn-select (is_pending b tier) s t
        (IsIn-order_by leads s (select (is_pending b tier) t) at) in
    (there, ==_eq s.delivered_at none (ground arith))

module _ (env : Env) (b : Bucket) where
  flush_interrupts-IsKept : (t : Outbox) → HasUniqueIds t → IsKept t (flush_interrupts env b t).1.1
  unfolding flush_interrupts
  flush_interrupts-IsKept t h =
      let budget = (bucket_settings env b).notification_budget in
      let used = interrupts_today b env.now t in
      let rows = pending b 0 t in
      let g = triage_interrupts (is_quiet env b) budget used rows in
      let t0 = map (demote (ids g.demoted)) t in
      let k : IsKept t t0 = demote-IsKept t g.demoted h (λ s at.
        pending-AreOpen b 0 t s
          (triage_interrupts_demoted (is_quiet env b) budget used s rows at)) in
      IsKept-trans t t0 _ k (deliver_batch-IsKept env "interrupt" g.chosen t0 k.unique)

  flush_tier1-IsKept :
      (quiet force : Bool) (t : Outbox)
      → HasUniqueIds t
      → IsKept t (flush_tier1 env b quiet force t).1
  unfolding flush_tier1
  flush_tier1-IsKept quiet force t h =
      let present = force || presence_active env b in
      let rows = pending b 1 t in
      let g = triage_notifies env.now present quiet rows in
      let t0 = map (demote (ids g.demoted)) t in
      let k : IsKept t t0 = demote-IsKept t g.demoted h (λ s at.
        pending-AreOpen b 1 t s (triage_notifies_demoted env.now present quiet s rows at)) in
      IsKept-trans t t0 _ k (deliver_batch-IsKept env "notify" g.chosen t0 k.unique)

  digest_flush-IsKept : (t : Outbox) → HasUniqueIds t → IsKept t (digest_flush env b t).1
  unfolding digest_flush
  digest_flush-IsKept t h = deliver_batch-IsKept env "digest" _ t h

  flush_digest-IsKept : (t : Outbox) → HasUniqueIds t → IsKept t (flush_digest env b t).1
  unfolding flush_digest
  flush_digest-IsKept t h = elim (Bool-cases (is_quiet env b)) [
    | inl quiet ↦ rw (quiet, flush_digest) (IsKept-refl t h)
    | inr loud ↦ elim (Bool-cases (digest_due env b t)) [
      | inr early ↦ rw (loud, early, flush_digest) (IsKept-refl t h)
      | inl due ↦ rw (loud, due, flush_digest) (digest_flush-IsKept t h)
    ]
  ]

  flush_bucket-IsKept :
      (out : Counts) (t : Outbox) → HasUniqueIds t → IsKept t (flush_bucket env b (out, t)).1
  unfolding flush_bucket
  flush_bucket-IsKept out t h =
      let k1 = flush_interrupts-IsKept t h in
      let t1 = (flush_interrupts env b t).1.1 in
      let k2 = flush_tier1-IsKept (is_quiet env b) false t1 k1.unique in
      let t2 = (flush_tier1 env b (is_quiet env b) false t1).1 in
      IsKept-trans t t1 _ k1 (IsKept-trans t1 t2 _ k2 (flush_digest-IsKept t2 k2.unique))

flush_owners-IsKept :
    (env : Env) (owners : List (Option Uuid)) (s : Counts × Outbox)
    → HasUniqueIds s.1
    → IsKept s.1 (flush_owners env owners s).1
unfolding flush_owners
flush_owners-IsKept env [] s h = IsKept-refl s.1 h
flush_owners-IsKept env (owner ∷ rest) s h =
    let b : Bucket = record { owner = owner; scoped = true } in
    let k = flush_bucket-IsKept env b s.0 s.1 h in
    IsKept-trans s.1 _ _ k (flush_owners-IsKept env rest (flush_bucket env b s) k.unique)

pub flush_deliveries-IsKept :
    (env : Env) (tenancy : Bool) (t : Outbox)
    → HasUniqueIds t
    → IsKept t (flush_deliveries env tenancy t).1
unfolding flush_deliveries
flush_deliveries-IsKept env true t h =
    flush_owners-IsKept env (order_by owner_leads (open_owners t))
      (record { interrupt = 0; notify = 0; digest = 0; demoted = 0 }, t) h
flush_deliveries-IsKept env false t h =
    flush_bucket-IsKept env (record { owner = none; scoped = false })
      (record { interrupt = 0; notify = 0; digest = 0; demoted = 0 }) t h

pub on_user_returned-IsKept :
    (env : Env) (tenancy : Bool) (user : Option Uuid) (away : ℕ) (t : Outbox)
    → HasUniqueIds t
    → IsKept t (on_user_returned env tenancy user away t)
unfolding on_user_returned
on_user_returned-IsKept env tenancy user away t h =
    let b : Bucket = record { owner = user; scoped = tenancy } in
    let t1 = (flush_tier1 env b false true t).1 in
    let k = flush_tier1-IsKept env b false true t h in
    elim (Bool-cases (ltb 3600000000 away)) [
      | inl long ↦ rw long (IsKept-trans t t1 _ k (digest_flush-IsKept env b t1 k.unique))
      | inr short ↦ rw short k
    ]
