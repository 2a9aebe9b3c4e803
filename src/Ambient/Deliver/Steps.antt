-- ===== src/Ambient/Deliver/Steps.antt =====
-- The life of the outbox: inserts, passes and returns in any order (backend/app/ambient/deliver.py).
use concierge_agent.Prelude.{
  ℕ, ◌≤◌, ◌≡◌, ◌≢◌, inl, inr, refl, sym, ◌∙◌, subst, String, Bool, true, false, not, ◌&&◌, Option,
  none, some, [], ◌∷◌, map, arith, IsIn, Bool-cases, Option-cases, count_where, ◌==◌, nat_eq,
  string_eq, option_eq, ==_eq, ==_ne_iff, if◌then◌else◌,
}
use concierge_agent.Ambient.Events.{Uuid}
use concierge_agent.Ambient.Deliver.Outbox.{
  Delivery, Outbox, Item, Inserting, new_delivery, supersede, collapse, add_delivery, is_open,
}
use concierge_agent.Ambient.Deliver.Flush.{Env, ids}
use concierge_agent.Ambient.Deliver.Tick.{flush_deliveries, on_user_returned}
use concierge_agent.Ambient.Deliver.Rows.{
  HasUniqueIds, KeepsIds, ids-map, map-HasUniqueIds, IsIn-map, count_where-map_le,
}
use concierge_agent.Ambient.Deliver.Ledger.{IsKept, is_open_with}
use concierge_agent.Ambient.Deliver.Passes.{flush_deliveries-IsKept, on_user_returned-IsKept}

-- One operation on the outbox. An insert draws an id that no row has.
pub data Step (t : Outbox) : Outbox → Type 0 where
  added :
      (env : Inserting) (item : Item)
      → ¬ (IsIn env.fresh (ids t))
      → Step t (add_delivery env item t)
  flushed : (env : Env) (tenancy : Bool) → Step t (flush_deliveries env tenancy t).1
  returned :
      (env : Env) (tenancy : Bool) (user : Option Uuid) (away : ℕ)
      → Step t (on_user_returned env tenancy user away t)

pub data Run (t : Outbox) : Outbox → Type 0 where
  start : Run t t
  next : {u v : Outbox} → Run t u → Step u v → Run t v

-- A key that is not empty has one open row at most.
abbrev pub HasOneOpen : Outbox → Type 0
HasOneOpen t = (key : String) → key ≢ "" → count_where (is_open_with key) t ≤ 1

supersede-KeepsIds : (id : Uuid) (key : String) → KeepsIds (supersede id key)
unfolding supersede
supersede-KeepsIds id key r =
    elim (Bool-cases (r.skey == some key && (not (r.id == id) && is_open r))) [
      | inl hit ↦ rw hit
      | inr miss ↦ rw miss
    ]

supersede-delivered :
    (id : Uuid) (key : String) (r : Delivery) → r.delivered_at ≢ none → supersede id key r ≡ r
unfolding supersede
supersede-delivered id key r d = rw (==_ne_iff r.delivered_at none d) (ground arith)

supersede-is_open_with :
    (id : Uuid) (key other : String) (r : Delivery)
    → is_open_with other (supersede id key r) ≡ true
    → is_open_with other r ≡ true
unfolding supersede
supersede-is_open_with id key other r h =
    elim (Bool-cases (r.skey == some key && (not (r.id == id) && is_open r))) [
      | inl hit ↦ ground (arith, rw hit at h)
      | inr miss ↦ rw miss at h
    ]

-- No row with the key stays open.
supersede_closes :
    (id : Uuid) (key : String) (r : Delivery)
    → r.id ≢ id
    → is_open_with key (supersede id key r) ≡ false
unfolding supersede
supersede_closes id key r other =
    elim (Bool-cases (r.skey == some key && (not (r.id == id) && is_open r))) [
      | inl hit ↦ rw hit (ground arith)
      | inr miss ↦ rw miss (ground (arith, ==_ne_iff r.id id other))
    ]

map_same : (f : Delivery → Delivery) → ((r : Delivery) → f r ≡ r) → (t : Outbox) → map f t ≡ t
map_same f h [] = refl
map_same f h (r ∷ rest) = rw (h r, map_same f h rest)

map_ext :
    (f g : Delivery → Delivery) → ((r : Delivery) → f r ≡ g r) → (t : Outbox) → map f t ≡ map g t
map_ext f g h [] = refl
map_ext f g h (r ∷ rest) = rw (h r, map_ext f g h rest)

module _ (row : Delivery) where
  -- What an insert makes of each row that is there.
  mark : Delivery → Delivery
  mark r = elim row.skey [ none ↦ r | some key ↦ if key == "" then r else supersede row.id key r ]

  collapse-map : (t : Outbox) → collapse row t ≡ map mark t
  unfolding collapse mark
  collapse-map t = elim (Option-cases row.skey) [
    | inl bare ↦
        let left : collapse row t ≡ t = rw bare in left ∙ sym (map_same mark (λ r. rw bare) t)
    | inr (key, named) ↦ elim (Bool-cases (key == "")) [
      | inl empty ↦
          let left : collapse row t ≡ t = rw (named, empty) in
          left ∙ sym (map_same mark (λ r. rw (named, empty)) t)
      | inr full ↦
          let left : collapse row t ≡ map (supersede row.id key) t = rw (named, full) in
          left ∙ map_ext (supersede row.id key) mark (λ r. rw (named, full)) t
    ]
  ]

  mark-KeepsIds : KeepsIds mark
  unfolding mark
  mark-KeepsIds r = elim (Option-cases row.skey) [
    | inl bare ↦ rw bare
    | inr (key, named) ↦ elim (Bool-cases (key == "")) [
      | inl empty ↦ rw (named, empty)
      | inr full ↦ rw (named, full) (supersede-KeepsIds row.id key r)
    ]
  ]

  mark-delivered : (r : Delivery) → r.delivered_at ≢ none → mark r ≡ r
  unfolding mark
  mark-delivered r d = elim (Option-cases row.skey) [
    | inl bare ↦ rw bare
    | inr (key, named) ↦ elim (Bool-cases (key == "")) [
      | inl empty ↦ rw (named, empty)
      | inr full ↦ rw (named, full) (supersede-delivered row.id key r d)
    ]
  ]

  mark-is_open_with :
      (other : String) (r : Delivery)
      → is_open_with other (mark r) ≡ true
      → is_open_with other r ≡ true
  unfolding mark
  mark-is_open_with other r h = elim (Option-cases row.skey) [
    | inl bare ↦ rw bare at h
    | inr (key, named) ↦ elim (Bool-cases (key == "")) [
      | inl empty ↦ rw (named, empty) at h
      | inr full ↦ supersede-is_open_with row.id key other r (rw (named, full) at h)
    ]
  ]

  mark_closes :
      (key : String) (t : Outbox)
      → row.skey ≡ some key
      → key ≢ ""
      → ¬ (IsIn row.id (ids t))
      → count_where (is_open_with key) (map mark t) ≡ 0
  unfolding mark
  mark_closes key [] named full new = refl
  mark_closes key (r ∷ rest) named full new =
      let closed : is_open_with key (mark r) ≡ false =
        rw (named, ==_ne_iff key "" full)
          (supersede_closes row.id key r (λ e. new (inl (sym e)))) in
      rw closed (mark_closes key rest named full (λ at. new (inr at)))

module _ (env : Inserting) (item : Item) (t : Outbox) (new : ¬ (IsIn env.fresh (ids t))) where
  add_delivery-HasUniqueIds : HasUniqueIds t → HasUniqueIds (add_delivery env item t)
  unfolding add_delivery new_delivery
  add_delivery-HasUniqueIds h =
      let row = new_delivery env item in
      rw (collapse-map row t) (
        subst (λ l. ¬ (IsIn env.fresh l)) (sym (ids-map (mark row) t (mark-KeepsIds row))) new,
        map-HasUniqueIds (mark row) t (mark-KeepsIds row) h,
      )

  add_delivery_keeps :
      (r : Delivery) → IsIn r t → r.delivered_at ≢ none → IsIn r (add_delivery env item t)
  unfolding add_delivery
  add_delivery_keeps r at d =
      let row = new_delivery env item in
      rw (collapse-map row t) (
        inr (
          subst (λ x. IsIn x (map (mark row) t)) (mark-delivered row r d)
            (IsIn-map (mark row) r t at)))

  add_delivery-HasOneOpen : HasOneOpen t → HasOneOpen (add_delivery env item t)
  unfolding add_delivery new_delivery
  add_delivery-HasOneOpen h key full =
      let row = new_delivery env item in
      rw (collapse-map row t) (elim (Bool-cases (row.skey == some key)) [
        | inr other ↦ rw other (
            omega (
              arith,
              h key full,
              count_where-map_le (is_open_with key) (mark row) t (mark-is_open_with row key),
            ))
        | inl same ↦
            let none_left = mark_closes row key t (==_eq row.skey (some key) same) full new in
            ground (arith, none_left)
      ])

Step-keeps :
    (t u : Outbox)
    → Step t u
    → HasUniqueIds t
    → HasUniqueIds u × ((r : Delivery) → IsIn r t → r.delivered_at ≢ none → IsIn r u)
Step-keeps t _ (added env item new) h =
    (add_delivery-HasUniqueIds env item t new h, add_delivery_keeps env item t new)
Step-keeps t _ (flushed env tenancy) h =
    let k = flush_deliveries-IsKept env tenancy t h in (k.unique, k.kept)
Step-keeps t _ (returned env tenancy user away) h =
    let k = on_user_returned-IsKept env tenancy user away t h in (k.unique, k.kept)

of_no_more : (t u : Outbox) → IsKept t u → HasOneOpen t → HasOneOpen u
of_no_more t u k one key full = omega (arith, k.no_more key, one key full)

Step-HasOneOpen : (t u : Outbox) → Step t u → HasUniqueIds t → HasOneOpen t → HasOneOpen u
Step-HasOneOpen t _ (added env item new) h one = add_delivery-HasOneOpen env item t new one
Step-HasOneOpen t _ (flushed env tenancy) h one =
    of_no_more t _ (flush_deliveries-IsKept env tenancy t h) one
Step-HasOneOpen t _ (returned env tenancy user away) h one =
    of_no_more t _ (on_user_returned-IsKept env tenancy user away t h) one

-- Whatever inserts, passes and returns follow, in any order, a row that was delivered stays in the
-- outbox as it is, and no two rows come to share an id, if none did.
pub run_keeps :
    (t u : Outbox)
    → Run t u
    → HasUniqueIds t
    → HasUniqueIds u × ((r : Delivery) → IsIn r t → r.delivered_at ≢ none → IsIn r u)
run_keeps t _ start h = (h, λ r at d. at)
run_keeps t v (next {u} before last) h =
    let (unique, kept) = run_keeps t u before h in
    let (unique', kept') = Step-keeps u v last unique in
    (unique', λ r at d. kept' r (kept r at d) d)

-- Whatever inserts, passes and returns follow, in any order, a supersede key that is not empty keeps
-- one open row at most, if it had one at most before and no two rows shared an id.
pub run-HasOneOpen : (t u : Outbox) → Run t u → HasUniqueIds t → HasOneOpen t → HasOneOpen u
run-HasOneOpen t _ start h one = one
run-HasOneOpen t v (next {u} before last) h one =
    Step-HasOneOpen u v last (run_keeps t u before h).0 (run-HasOneOpen t u before h one)
