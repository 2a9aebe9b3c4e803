-- ===== src/Ambient/Deliver/Digest.antt =====
-- The budget of approvals in a digest (backend/app/ambient/deliver.py).
use concierge_agent.Prelude.{
  ℕ, zero, suc, max, ◌+◌, ◌-◌, ◌≤◌, ◌≡◌, ◌⊎◌, inl, inr, refl, subst, String, Bool, true, false,
  ◌&&◌, ◌||◌, none, List, [], ◌∷◌, arith, IsIn, Bool-cases, count_where, select, contains, ◌==◌,
  nat_eq, option_eq, ==_eq,
}
use concierge_agent.Prelude.Clock.{Instant, midnight}
use concierge_agent.Ambient.Events.{Uuid}
use concierge_agent.Ambient.Deliver.Outbox.{Sends, Delivery, Outbox}
use concierge_agent.Ambient.Deliver.Flush.{
  Bucket, Env, bucket_settings, leads, is_pending, pending, ids, deliver, deliver_batch,
  is_approval, is_approval_since, approvals_today, choose_digest, digest_flush,
}
use concierge_agent.Prelude.{IsIn-select}
use concierge_agent.Ambient.Deliver.Rows.{
  HasUniqueIds, count_where-map_add, count_id-le_one, count_none_zero, IsIn-order_by,
}
use concierge_agent.Ambient.Deliver.Ledger.{same_row}

-- The approvals chosen stay within what is allowed.
count-choose_digest :
    (allowed : ℕ) (rows : List Delivery)
    → count_where is_approval (choose_digest allowed rows) ≤ allowed
unfolding choose_digest
count-choose_digest allowed [] = omega arith
count-choose_digest zero (r ∷ rest) = elim (Bool-cases (is_approval r)) [
  | inr plain ↦ ground (arith, plain, count-choose_digest zero rest)
  | inl asks ↦ ground (arith, asks, count-choose_digest zero rest)
]
count-choose_digest (suc left) (r ∷ rest) = elim (Bool-cases (is_approval r)) [
  | inr plain ↦ ground (arith, plain, count-choose_digest (suc left) rest)
  | inl asks ↦ ground (arith, asks, count-choose_digest left rest)
]

choose_digest-IsIn :
    (allowed : ℕ) (r : Delivery) (rows : List Delivery)
    → IsIn r (choose_digest allowed rows)
    → IsIn r rows
unfolding choose_digest
choose_digest-IsIn allowed r [] at = absurd at
choose_digest-IsIn zero r (s ∷ rest) at = elim (Bool-cases (is_approval s)) [
  | inl asks ↦ inr (choose_digest-IsIn zero r rest (rw (asks, IsIn) at at))
  | inr plain ↦ elim (rw (plain, IsIn) at at) [
    | inl e ↦ inl e
    | inr more ↦ inr (choose_digest-IsIn zero r rest more)
  ]
]
choose_digest-IsIn (suc left) r (s ∷ rest) at = elim (Bool-cases (is_approval s)) [
  | inl asks ↦ elim (rw (asks, IsIn) at at) [
    | inl e ↦ inl e
    | inr more ↦ inr (choose_digest-IsIn left r rest more)
  ]
  | inr plain ↦ elim (rw (plain, IsIn) at at) [
    | inl e ↦ inl e
    | inr more ↦ inr (choose_digest-IsIn (suc left) r rest more)
  ]
]

count_where_zero :
    (p : Delivery → Bool) (t : Outbox)
    → ((r : Delivery) → IsIn r t → p r ≡ false)
    → count_where p t ≡ 0
count_where_zero p [] h = refl
count_where_zero p (r ∷ rest) h =
    rw (h r (inl refl)) (count_where_zero p rest (λ s at. h s (inr at)))

count_both-le :
    (p q : Delivery → Bool) (t : Outbox) → count_where (λ r. p r && q r) t ≤ count_where q t
count_both-le p q [] = omega arith
count_both-le p q (r ∷ rest) = ground (arith, count_both-le p q rest)

count_split-le :
    (p q s : Delivery → Bool) (t : Outbox)
    → count_where (λ r. p r && (q r || s r)) t
      ≤ count_where (λ r. p r && q r) t + count_where (λ r. p r && s r) t
count_split-le p q s [] = omega arith
count_split-le p q s (r ∷ rest) = ground (arith, count_split-le p q s rest)

-- The approvals that a batch of the table's rows names are the approvals of the batch.
count_named-le :
    (rows : List Delivery) (t : Outbox)
    → HasUniqueIds t
    → ((s : Delivery) → IsIn s rows → IsIn s t)
    → count_where (λ r. is_approval r && contains r.id (ids rows)) t ≤ count_where is_approval rows
count_named-le [] t h inside =
    omega (arith, count_both-le is_approval (λ r. false) t, count_none_zero t)
count_named-le (c ∷ rows) t h inside =
    let ih = count_named-le rows t h (λ s at. inside s (inr at)) in
    let split = count_split-le is_approval (λ r. c.id == r.id) (λ r. contains r.id (ids rows)) t in
    elim (Bool-cases (is_approval c)) [
      | inl asks ↦ rw asks (
          omega (
            arith,
            ih,
            split,
            count_both-le is_approval (λ r. c.id == r.id) t,
            count_id-le_one c.id t h,
          ))
      | inr plain ↦
          let nothing : count_where (λ r. is_approval r && c.id == r.id) t ≡ 0 =
            count_where_zero (λ r. is_approval r && c.id == r.id) t
              (λ r at. elim (Bool-cases (c.id == r.id)) [
                | inr other ↦ ground (arith, other)
                | inl same ↦
                    let e = same_row t c r h (inside c (inl refl)) at (==_eq c.id r.id same) in
                    ground (arith, subst (λ x. is_approval x ≡ false) e plain)
              ]) in
          rw plain (omega (arith, ih, split, nothing))
    ]

deliver-is_approval :
    (b : Bucket) (start now : Instant) (mode : String) (e : Sends) (batch : List Uuid)
    (r : Delivery)
    → is_approval_since b start (deliver now mode e batch r) ≡ true
    → (is_approval_since b start r ≡ true) ⊎ ((is_approval r && contains r.id batch) ≡ true)
deliver-is_approval b start now mode e batch r h =
    elim (Bool-cases (contains r.id batch && r.delivered_at == none)) [
      | inr miss ↦ inl (rw miss at h)
      | inl hit ↦ inr (ground (arith, hit, rw hit at h))
    ]

deliver_batch-approvals_today :
    (env : Env) (b : Bucket) (mode : String) (rows : List Delivery) (t : Outbox)
    → HasUniqueIds t
    → ((s : Delivery) → IsIn s rows → IsIn s t)
    → approvals_today b env.now (deliver_batch env mode rows t).1
      ≤ approvals_today b env.now t + count_where is_approval rows
unfolding deliver_batch
deliver_batch-approvals_today env b mode [] t h inside = omega arith
deliver_batch-approvals_today env b mode (c ∷ rows) t h inside =
    let e = env.dispatch mode (c ∷ rows) in
    omega (
      arith,
      count_where-map_add (is_approval_since b (midnight env.now))
          (λ r. is_approval r && contains r.id (ids (c ∷ rows)))
          (deliver env.now mode e (ids (c ∷ rows))) t
          (deliver-is_approval b (midnight env.now) env.now mode e (ids (c ∷ rows))),
      count_named-le (c ∷ rows) t h inside,
    )

-- A digest leaves the approvals that the bucket was delivered today within the bucket's budget of
-- escalations, or as many as they were, if no two rows share an id.
pub digest_flush-approvals_today :
    (env : Env) (b : Bucket) (t : Outbox)
    → HasUniqueIds t
    → approvals_today b env.now (digest_flush env b t).1
      ≤ max (approvals_today b env.now t) (bucket_settings env b).escalation_budget
unfolding digest_flush
digest_flush-approvals_today env b t h =
    let budget = (bucket_settings env b).escalation_budget in
    let allowed = budget - approvals_today b env.now t in
    let rows = pending b 2 t in
    omega (
      arith,
      deliver_batch-approvals_today env b "digest" (choose_digest allowed rows) t h (λ s at.
          (IsIn-select (is_pending b 2) s t (
            IsIn-order_by leads s (select (is_pending b 2) t)
              (choose_digest-IsIn allowed s rows at))).0),
      count-choose_digest allowed rows,
    )
