-- ===== src/Ambient/Deliver/Rows.antt =====
-- The rows of the outbox under the statements of the delivery plane
-- (backend/app/ambient/deliver.py).
use concierge_agent.Prelude.{
  ◌+◌, ◌≤◌, ◌≡◌, ◌⊎◌, inl, inr, refl, ap, sym, subst, Bool, true, false, ◌||◌, List, [], ◌∷◌, map,
  arith, IsIn, Bool-cases, count_where, length, contains, ◌==◌, nat_eq, ==_eq,
}
use concierge_agent.Ambient.Events.{Uuid}
use concierge_agent.Ambient.Deliver.Outbox.{Delivery, Outbox, insert_ordered, order_by}
use concierge_agent.Ambient.Deliver.Flush.{ids}

-- No two rows share an id.
abbrev pub HasUniqueIds : Outbox → Type 0
HasUniqueIds [] = Unit
HasUniqueIds (r ∷ rest) = ¬ (IsIn r.id (ids rest)) × HasUniqueIds rest

-- A statement that keeps the ids.
abbrev pub KeepsIds : (Delivery → Delivery) → Type 0
KeepsIds f = (r : Delivery) → (f r).id ≡ r.id

pub ids-map :
    (f : Delivery → Delivery) (table : Outbox) → KeepsIds f → ids (map f table) ≡ ids table
ids-map f [] k = refl
ids-map f (r ∷ rest) k = rw (k r, ids-map f rest k)

pub map-HasUniqueIds :
    (f : Delivery → Delivery) (table : Outbox)
    → KeepsIds f
    → HasUniqueIds table
    → HasUniqueIds (map f table)
map-HasUniqueIds f [] k h = tt
map-HasUniqueIds f (r ∷ rest) k h = (rw (k r, ids-map f rest k) h.0, map-HasUniqueIds f rest k h.1)

module _ {A : Type 0} where
  pub IsIn-map : {B : Type 0} (f : A → B) (a : A) (xs : List A) → IsIn a xs → IsIn (f a) (map f xs)
  IsIn-map f a [] at = absurd at
  IsIn-map f a (x ∷ xs) (inl e) = inl (ap f e)
  IsIn-map f a (x ∷ xs) (inr at) = inr (IsIn-map f a xs at)

module _ {A : Type 0} (before : A → A → Bool) where
  insert_ordered-IsIn :
      (x a : A) (xs : List A) → IsIn a (x ∷ xs) → IsIn a (insert_ordered before x xs)
  insert_ordered-IsIn x a [] at = at
  insert_ordered-IsIn x a (y ∷ ys) at = elim (Bool-cases (before y x)) [
    | inr miss ↦ rw miss at
    | inl hit ↦ rw hit (elim at [
      | inl e ↦ inr (insert_ordered-IsIn x a ys (inl e))
      | inr more ↦ elim more [
        | inl e ↦ inl e
        | inr rest ↦ inr (insert_ordered-IsIn x a ys (inr rest))
      ]
    ])
  ]

  IsIn-insert_ordered :
      (x a : A) (xs : List A) → IsIn a (insert_ordered before x xs) → IsIn a (x ∷ xs)
  IsIn-insert_ordered x a [] at = at
  IsIn-insert_ordered x a (y ∷ ys) at = elim (Bool-cases (before y x)) [
    | inr miss ↦ rw miss at at
    | inl hit ↦ elim (rw hit at at) [
      | inl e ↦ inr (inl e)
      | inr rest ↦ elim (IsIn-insert_ordered x a ys rest) [
        | inl e ↦ inl e
        | inr old ↦ inr (inr old)
      ]
    ]
  ]

  pub order_by-IsIn : (a : A) (xs : List A) → IsIn a xs → IsIn a (order_by before xs)
  order_by-IsIn a [] at = at
  order_by-IsIn a (x ∷ xs) (inl e) = insert_ordered-IsIn x a (order_by before xs) (inl e)
  order_by-IsIn a (x ∷ xs) (inr at) =
      insert_ordered-IsIn x a (order_by before xs) (inr (order_by-IsIn a xs at))

  pub IsIn-order_by : (a : A) (xs : List A) → IsIn a (order_by before xs) → IsIn a xs
  IsIn-order_by a [] at = at
  IsIn-order_by a (x ∷ xs) at = elim (IsIn-insert_ordered x a (order_by before xs) at) [
    | inl e ↦ inl e
    | inr old ↦ inr (IsIn-order_by a xs old)
  ]

module _ {A : Type 0} where
  -- A count over the rows of a statement that makes miss row count.
  pub count_where-map_le :
      (p : A → Bool) (f : A → A) (xs : List A)
      → ((x : A) → p (f x) ≡ true → p x ≡ true)
      → count_where p (map f xs) ≤ count_where p xs
  count_where-map_le p f [] h = omega arith
  count_where-map_le p f (x ∷ xs) h = elim (Bool-cases (p (f x))) [
    | inl hit ↦ rw (hit, h x hit) (omega (arith, count_where-map_le p f xs h))
    | inr miss ↦ rw miss (elim (Bool-cases (p x)) [
      | inl hit ↦ rw hit (omega (arith, count_where-map_le p f xs h))
      | inr also ↦ rw also (count_where-map_le p f xs h)
    ])
  ]

  -- A count over the rows of a statement that makes only the rows of a batch count.
  pub count_where-map_add :
      (p q : A → Bool) (f : A → A) (xs : List A)
      → ((x : A) → p (f x) ≡ true → (p x ≡ true) ⊎ (q x ≡ true))
      → count_where p (map f xs) ≤ count_where p xs + count_where q xs
  count_where-map_add p q f [] h = omega arith
  count_where-map_add p q f (x ∷ xs) h =
      let ih = count_where-map_add p q f xs h in
      elim (Bool-cases (p (f x))) [
        | inr miss ↦ ground arith
        | inl hit ↦ elim (h x hit) [ inl old ↦ ground arith | inr new ↦ ground arith ]
      ]

count_id_zero :
    (id : Uuid) (table : Outbox)
    → ¬ (IsIn id (ids table))
    → count_where (λ (r : Delivery). id == r.id) table ≡ 0
count_id_zero id [] h = refl
count_id_zero id (r ∷ rest) h = elim (Bool-cases (id == r.id)) [
  | inl same ↦ absurd (h (inl (==_eq id r.id same)))
  | inr other ↦ rw other (count_id_zero id rest (λ at. h (inr at)))
]

pub count_id-le_one :
    (id : Uuid) (table : Outbox)
    → HasUniqueIds table
    → count_where (λ (r : Delivery). id == r.id) table ≤ 1
count_id-le_one id [] h = omega arith
count_id-le_one id (r ∷ rest) h = elim (Bool-cases (id == r.id)) [
  | inr other ↦ rw other (count_id-le_one id rest h.1)
  | inl same ↦ rw same (
      omega (
        arith,
        count_id_zero id rest (subst (λ x. ¬ (IsIn x (ids rest))) (sym (==_eq id r.id same)) h.0),
      ))
]

pub count_or-le :
    {A : Type 0} (p q : A → Bool) (xs : List A)
    → count_where (λ x. p x || q x) xs ≤ count_where p xs + count_where q xs
count_or-le p q [] = omega arith
count_or-le p q (x ∷ xs) = ground (arith, count_or-le p q xs)

pub count_none_zero : (table : Outbox) → count_where (λ (r : Delivery). false) table ≡ 0
count_none_zero [] = refl
count_none_zero (r ∷ rest) = count_none_zero rest

-- A batch names at most as many rows as it has ids.
pub count_batch-le_length :
    (batch : List Uuid) (table : Outbox)
    → HasUniqueIds table
    → count_where (λ (r : Delivery). contains r.id batch) table ≤ length batch
count_batch-le_length [] table h = omega (arith, count_none_zero table)
count_batch-le_length (id ∷ rest) table h = omega (
  arith,
  count_or-le (λ (r : Delivery). id == r.id) (λ r. contains r.id rest) table,
  count_id-le_one id table h,
  count_batch-le_length rest table h,
)

pub length-ids : (rows : List Delivery) → length (ids rows) ≡ length rows
length-ids [] = refl
length-ids (r ∷ rest) = omega (arith, length-ids rest)
