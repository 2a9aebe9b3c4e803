-- ===== src/Settings/Stored.antt =====
-- What is read after a write (backend/app/settings_store.py).
use mathlib.Core.Bool.{true≢false}
use concierge_agent.Prelude.{
  ◌≡◌, refl, sym, ap, ◌∙◌, subst, inl, inr, String, true, false, [], ◌∷◌, ◌++◌, map, if◌then◌else◌,
  ◌==◌, string_eq, Bool-cases, if-both, ==_eq, ==_ne, ==_refl, ==_ne_iff,
}
use concierge_agent.Settings.Value.{Value}
use concierge_agent.Settings.Defaults.{Dict, defaults}
use concierge_agent.Settings.Update.{has, get, put, overlay, get_settings, put_all}

-- The last value that the items give the key, or else this one.
abbrev pub value_in : Dict → String → Value → Value
value_in [] key old = old
value_in ((k, v) ∷ rest) key old = value_in rest key (if k == key then v else old)

abbrev set_item : String → Value → String × Value → String × Value
set_item key v item = if item.0 == key then (item.0, v) else item

-- A change of the items keeps their keys.
has-map : (key k : String) (v : Value) (d : Dict) → has k (map (set_item key v) d) ≡ has k d
has-map key k v [] = refl
has-map key k v ((j, w) ∷ rest) = elim (Bool-cases (j == key)) [
  | inl same ↦ elim (Bool-cases (j == k)) [
    | inl hit ↦ rw (same, hit) refl
    | inr miss ↦ rw (same, miss) (has-map key k v rest)
  ]
  | inr other ↦ elim (Bool-cases (j == k)) [
    | inl hit ↦ rw (other, hit) refl
    | inr miss ↦ rw (other, miss) (has-map key k v rest)
  ]
]

get-map :
    (key k : String) (v : Value) (d : Dict)
    → has k d ≡ true
    → get (map (set_item key v) d) k ≡ (if key == k then v else get d k)
unfolding get
get-map key k v [] h = absurd (true≢false (sym h))
get-map key k v ((j, w) ∷ rest) h = elim (Bool-cases (j == k)) [
  | inl hit ↦ elim (Bool-cases (key == k)) [
    | inl same ↦
        let e : (j == key) ≡ true = rw (==_eq j k hit, ==_eq key k same) (==_refl k) in
        rw (e, hit, same) refl
    | inr other ↦
        let e : (j == key) ≡ false =
          rw (==_eq j k hit) (==_ne_iff k key (λ p. ==_ne key k other (sym p))) in
        rw (e, hit, other) refl
  ]
  | inr miss ↦
      let later : has k rest ≡ true = rw miss at h in
      elim (Bool-cases (j == key)) [
        | inl e ↦ rw (e, miss) (get-map key k v rest later)
        | inr e ↦ rw (e, miss) (get-map key k v rest later)
      ]
]

-- What is read after one item is put, if the key is there.
get-put :
    (key k : String) (v : Value) (d : Dict)
    → has k d ≡ true
    → has key d ≡ true
    → get (put key v d) k ≡ (if key == k then v else get d k)
unfolding put
get-put key k v d h there = rw (there, put) (get-map key k v d h)

has-put : (key k : String) (v : Value) (d : Dict) → has key d ≡ true → has k (put key v d) ≡ has k d
unfolding put
has-put key k v d there = rw (there, put) (has-map key k v d)

get-overlay :
    (rows : Dict) (d : Dict) (k : String)
    → has k d ≡ true
    → get (overlay rows d) k ≡ value_in rows k (get d k)
unfolding overlay put
get-overlay [] d k h = refl
get-overlay ((key, v) ∷ rest) d k h =
    if-both
      (λ (merged : Dict).
        get (overlay rest merged) k ≡ value_in rest k (if key == k then v else get d k))
      (has key d) (put key v d) d
      (λ there.
        get-overlay rest (put key v d) k (has-put key k v d there ∙ h)
        ∙ ap (value_in rest k) (get-put key k v d h there))
      (λ missing. elim (Bool-cases (key == k)) [
        | inl same ↦ absurd (true≢false (sym (ap (λ x. has x d) (==_eq key k same) ∙ h) ∙ missing))
        | inr other ↦ rw other (get-overlay rest d k h)
      ])

value_in-append :
    (xs : Dict) (key k : String) (v old : Value)
    → value_in (xs ++ ((key, v) ∷ [])) k old ≡ (if key == k then v else value_in xs k old)
value_in-append [] key k v old = refl
value_in-append ((j, w) ∷ rest) key k v old =
    value_in-append rest key k v (if j == k then w else old)

value_in-same :
    (xs : Dict) (key k : String) (v old : Value)
    → (key == k) ≡ false
    → value_in (map (set_item key v) xs) k old ≡ value_in xs k old
value_in-same [] key k v old other = refl
value_in-same ((j, w) ∷ rest) key k v old other = elim (Bool-cases (j == key)) [
  | inl hit ↦
      let miss : (j == k) ≡ false = rw (==_eq j key hit) other in
      rw (hit, miss) (value_in-same rest key k v old other)
  | inr miss ↦ rw miss (value_in-same rest key k v (if j == k then w else old) other)
]

value_in-set :
    (xs : Dict) (key : String) (v old : Value)
    → (has key xs ≡ true → value_in (map (set_item key v) xs) key old ≡ v)
      × (has key xs ≡ false → value_in (map (set_item key v) xs) key old ≡ old)
value_in-set [] key v old = (λ h. absurd (true≢false (sym h)), λ h. refl)
value_in-set ((j, w) ∷ rest) key v old = elim (Bool-cases (j == key)) [
  | inl hit ↦
      rw (hit, hit)
        (
          λ h. elim (Bool-cases (has key rest)) [
            | inl more ↦ (value_in-set rest key v v).0 more
            | inr no_more ↦ (value_in-set rest key v v).1 no_more
          ],
          λ h. absurd (true≢false h),
        )
  | inr miss ↦ rw (miss, miss) (value_in-set rest key v old)
]

value_in-put :
    (rows : Dict) (key k : String) (v old : Value)
    → value_in (put key v rows) k old ≡ (if key == k then v else value_in rows k old)
unfolding put
value_in-put rows key k v old = elim (Bool-cases (has key rows)) [
  | inr new ↦ rw (new, put) (value_in-append rows key k v old)
  | inl there ↦ elim (Bool-cases (key == k)) [
    | inr other ↦ rw (there, other, put) (value_in-same rows key k v old other)
    | inl same ↦
        let e = ==_eq key k same in
        rw (there, same, put)
          (subst (λ x. value_in (map (set_item key v) rows) x old ≡ v) e
            ((value_in-set rows key v old).0 there))
  ]
]

value_in-put_all :
    (updates rows : Dict) (k : String) (old : Value)
    → value_in (put_all updates rows) k old ≡ value_in updates k (value_in rows k old)
unfolding put_all
value_in-put_all [] rows k old = refl
value_in-put_all ((key, v) ∷ rest) rows k old =
    value_in-put_all rest (put key v rows) k old
    ∙ ap (value_in rest k) (value_in-put rows key k v old)

-- A setting that is read after a write is what the write gave it last, or else what was read before.
pub get_settings-put_all :
    (updates rows : Dict) (key : String)
    → has key defaults ≡ true
    → get (get_settings (put_all updates rows)) key
      ≡ value_in updates key (get (get_settings rows) key)
unfolding get_settings
get_settings-put_all updates rows key known =
    get-overlay (put_all updates rows) defaults key known
    ∙ (value_in-put_all updates rows key (get defaults key)
        ∙ ap (value_in updates key) (sym (get-overlay rows defaults key known)))
