-- ===== src/Ambient/Deliver/Ledger.antt =====
-- What the passes leave of the rows that were delivered, and of the open rows with a key
-- (backend/app/ambient/deliver.py).
use concierge_agent.Prelude.{
  ◌≤◌, ◌≡◌, ◌≢◌, inl, inr, refl, sym, ap, ◌∙◌, subst, String, Bool, true, ◌&&◌, none, some, List,
  [], ◌∷◌, map, arith, IsIn, contains-IsIn, Bool-cases, count_where, contains, ◌==◌, nat_eq,
  string_eq, option_eq, ==_ne_iff,
}
use concierge_agent.Prelude.Clock.{Instant}
use concierge_agent.Ambient.Events.{Uuid}
use concierge_agent.Ambient.Deliver.Outbox.{Sends, Delivery, Outbox, is_open}
use concierge_agent.Ambient.Deliver.Flush.{Env, ids, demote, deliver, deliver_batch}
use concierge_agent.Ambient.Deliver.Rows.{
  HasUniqueIds, KeepsIds, map-HasUniqueIds, IsIn-map, count_where-map_le,
}
use concierge_agent.Ambient.Deliver.Budget.{demote-KeepsIds}

-- An open row with this key.
abbrev pub is_open_with : String → Delivery → Bool
is_open_with key r = r.skey == some key && is_open r

-- How the table after an operation stands to the table before: ids stay unique, a delivered row is
-- the same, and no key has more open rows.
pub record IsKept (t u : Outbox) : Type 0 where
  pub unique : HasUniqueIds u
  pub kept : (r : Delivery) → IsIn r t → r.delivered_at ≢ none → IsIn r u
  pub no_more : (key : String) → count_where (is_open_with key) u ≤ count_where (is_open_with key) t

pub IsKept-refl : (t : Outbox) → HasUniqueIds t → IsKept t t
IsKept-refl t h = record { unique = h; kept = λ r at d. at; no_more = λ key. omega arith }

pub IsKept-trans : (t u v : Outbox) → IsKept t u → IsKept u v → IsKept t v
IsKept-trans t u v h k = record {
  unique = k.unique;
  kept = λ r at d. k.kept r (h.kept r at d) d;
  no_more = λ key. omega (arith, h.no_more key, k.no_more key);
}

ids-IsIn :
    (id : Uuid) (rows : List Delivery)
    → IsIn id (ids rows)
    → (s : Delivery) × IsIn s rows × (s.id ≡ id)
ids-IsIn id [] at = absurd at
ids-IsIn id (s ∷ rest) (inl e) = (s, inl refl, sym e)
ids-IsIn id (s ∷ rest) (inr at) = let (r, old, same) = ids-IsIn id rest at in (r, inr old, same)

pub same_row :
    (t : Outbox) (r s : Delivery) → HasUniqueIds t → IsIn r t → IsIn s t → r.id ≡ s.id → r ≡ s
same_row [] r s h at there e = absurd at
same_row (x ∷ xs) r s h (inl p) (inl q) e = p ∙ sym q
same_row (x ∷ xs) r s h (inl p) (inr q) e = absurd (
    h.0 (
      subst (λ i. IsIn i (ids xs)) (sym e ∙ ap (λ (y : Delivery). y.id) p)
        (IsIn-map (λ (y : Delivery). y.id) s xs q)))
same_row (x ∷ xs) r s h (inr p) (inl q) e = absurd (
    h.0 (
      subst (λ i. IsIn i (ids xs)) (e ∙ ap (λ (y : Delivery). y.id) q)
        (IsIn-map (λ (y : Delivery). y.id) r xs p)))
same_row (x ∷ xs) r s h (inr p) (inr q) e = same_row xs r s h.1 p q e

-- The rows of a batch are open rows of the table.
abbrev pub AreOpen : Outbox → List Delivery → Type 0
AreOpen t rows = (s : Delivery) → IsIn s rows → IsIn s t × (s.delivered_at ≡ none)

demote-delivered :
    (t : Outbox) (rows : List Delivery) (r : Delivery)
    → HasUniqueIds t
    → AreOpen t rows
    → IsIn r t
    → r.delivered_at ≢ none
    → demote (ids rows) r ≡ r
demote-delivered t rows r h opened at d = elim (Bool-cases (contains r.id (ids rows))) [
  | inr miss ↦ rw miss
  | inl hit ↦
      let (s, listed, same) = ids-IsIn r.id rows (contains-IsIn r.id (ids rows) hit) in
      let (there, fresh) = opened s listed in
      absurd
        (d (subst (λ (x : Delivery). x.delivered_at ≡ none) (same_row t s r h there at same) fresh))
]

demote-is_open_with :
    (key : String) (batch : List Uuid) (r : Delivery)
    → is_open_with key (demote batch r) ≡ true
    → is_open_with key r ≡ true
demote-is_open_with key batch r h = elim (Bool-cases (contains r.id batch)) [
  | inl hit ↦ rw hit at h
  | inr miss ↦ rw miss at h
]

pub demote-IsKept :
    (t : Outbox) (rows : List Delivery)
    → HasUniqueIds t
    → AreOpen t rows
    → IsKept t (map (demote (ids rows)) t)
demote-IsKept t rows h opened = record {
  unique = map-HasUniqueIds (demote (ids rows)) t (demote-KeepsIds (ids rows)) h;
  kept = λ r at d.
      subst (λ x. IsIn x (map (demote (ids rows)) t)) (demote-delivered t rows r h opened at d)
        (IsIn-map (demote (ids rows)) r t at);
  no_more = λ key.
      count_where-map_le (is_open_with key) (demote (ids rows)) t
        (demote-is_open_with key (ids rows));
}

module _ (now : Instant) (mode : String) (e : Sends) (batch : List Uuid) where
  deliver-KeepsIds : KeepsIds (deliver now mode e batch)
  deliver-KeepsIds r = elim (Bool-cases (contains r.id batch && r.delivered_at == none)) [
    | inl hit ↦ rw hit
    | inr miss ↦ rw miss
  ]

  deliver-delivered : (r : Delivery) → r.delivered_at ≢ none → deliver now mode e batch r ≡ r
  deliver-delivered r d = rw (==_ne_iff r.delivered_at none d) (ground arith)

  deliver-is_open_with :
      (key : String) (r : Delivery)
      → is_open_with key (deliver now mode e batch r) ≡ true
      → is_open_with key r ≡ true
  deliver-is_open_with key r h = elim (Bool-cases (contains r.id batch && r.delivered_at == none)) [
    | inl hit ↦ ground (arith, rw hit at h)
    | inr miss ↦ rw miss at h
  ]

pub deliver_batch-IsKept :
    (env : Env) (mode : String) (rows : List Delivery) (t : Outbox)
    → HasUniqueIds t
    → IsKept t (deliver_batch env mode rows t).1
unfolding deliver_batch
deliver_batch-IsKept env mode [] t h = IsKept-refl t h
deliver_batch-IsKept env mode (c ∷ rows) t h =
    let e = env.dispatch mode (c ∷ rows) in
    let f = deliver env.now mode e (ids (c ∷ rows)) in
    record {
      unique = map-HasUniqueIds f t (deliver-KeepsIds env.now mode e (ids (c ∷ rows))) h;
      kept = λ r at d.
          subst (λ x. IsIn x (map f t)) (deliver-delivered env.now mode e (ids (c ∷ rows)) r d)
            (IsIn-map f r t at);
      no_more = λ key.
          count_where-map_le (is_open_with key) f t
            (deliver-is_open_with env.now mode e (ids (c ∷ rows)) key);
    }
