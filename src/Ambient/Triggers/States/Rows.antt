-- ===== src/Ambient/Triggers/States/Rows.antt =====
-- The rows of the table that have an id, before and after a watermark is set (backend/app/ambient/triggers.py).
use concierge_agent.Prelude.{
  ℕ, ◌≤◌, ◌≡◌, refl, ap, ◌∙◌, inl, inr, Bool, true, false, Option, some, List, [], ◌∷◌, arith,
  Bool-cases, if◌then◌else◌, select, ◌==◌, nat_eq, option_eq, ==_eq, find_where, count_where,
}
use concierge_agent.Ambient.Events.{Uuid}
use concierge_agent.Ambient.Triggers.States.{Floats, StandingIntent, set_watermark}

module _ (floats : Floats) where
  abbrev pub intent_of : Uuid → List (StandingIntent floats) → Option (StandingIntent floats)
  intent_of id rows = find_where (λ (r : StandingIntent floats). r.id == id) rows

  abbrev pub rows_of : Uuid → List (StandingIntent floats) → ℕ
  rows_of id rows = count_where (λ (r : StandingIntent floats). r.id == id) rows

  abbrev pub marked : Bool → StandingIntent floats → StandingIntent floats
  marked now i = record i { watermark = some (if now then "holding" else "clear") }

  pub intent_of-set_other :
      (id other : Uuid) (now : Bool) (rows : List (StandingIntent floats))
      → (other == id) ≡ false
      → intent_of id (set_watermark floats other now rows) ≡ intent_of id rows
  unfolding set_watermark
  intent_of-set_other id other now [] apart = refl
  intent_of-set_other id other now (r ∷ rest) apart =
      let ih = intent_of-set_other id other now rest apart in
      elim (Bool-cases (r.id == other)) [
        | inl hit ↦
            let miss : (r.id == id) ≡ false = ap (λ n. n == id) (==_eq r.id other hit) ∙ apart in
            rw (hit, miss) ih
        | inr off ↦ elim (Bool-cases (r.id == id)) [
          | inl here ↦ rw (off, here) refl
          | inr miss ↦ rw (off, miss) ih
        ]
      ]

  pub intent_of-set_own :
      (id : Uuid) (now : Bool) (i : StandingIntent floats) (rows : List (StandingIntent floats))
      → intent_of id rows ≡ some i
      → intent_of id (set_watermark floats id now rows) ≡ some (marked now i)
  unfolding set_watermark
  intent_of-set_own id now i [] h = absurd cc
  intent_of-set_own id now i (r ∷ rest) h = elim (Bool-cases (r.id == id)) [
    | inl here ↦
        let same : r ≡ i = let k : some r ≡ some i = rw here at h in cc in
        rw (here, here) (ap (λ x. some (marked now x)) same)
    | inr miss ↦ rw (miss, miss) (intent_of-set_own id now i rest (rw miss at h))
  ]

  pub rows_of-set :
      (id other : Uuid) (now : Bool) (rows : List (StandingIntent floats))
      → rows_of id (set_watermark floats other now rows) ≡ rows_of id rows
  unfolding set_watermark
  rows_of-set id other now [] = refl
  rows_of-set id other now (r ∷ rest) =
      let ih = rows_of-set id other now rest in
      elim (Bool-cases (r.id == other)) [
        | inl hit ↦ rw hit (ground (arith, ih))
        | inr apart ↦ rw apart (ground (arith, ih))
      ]

  -- The first row of an id among those that pass a test, if that row passes it.
  pub intent_of-select :
      (p : StandingIntent floats → Bool) (id : Uuid) (i : StandingIntent floats)
      (rows : List (StandingIntent floats))
      → p i ≡ true
      → intent_of id rows ≡ some i
      → intent_of id (select p rows) ≡ some i
  intent_of-select p id i [] ok h = h
  intent_of-select p id i (r ∷ rest) ok h = elim (Bool-cases (r.id == id)) [
    | inl here ↦
        let same : r ≡ i = let k : some r ≡ some i = rw here at h in cc in
        let passes : p r ≡ true = ap p same ∙ ok in rw (passes, here) (ap (λ x. some x) same)
    | inr miss ↦
        let ih = intent_of-select p id i rest ok (rw miss at h) in
        elim (Bool-cases (p r)) [ inl yes_p ↦ rw (yes_p, miss) ih | inr no_p ↦ rw no_p ih ]
  ]

  pub rows_of-select :
      (p : StandingIntent floats → Bool) (id : Uuid) (rows : List (StandingIntent floats))
      → rows_of id (select p rows) ≤ rows_of id rows
  rows_of-select p id [] = omega arith
  rows_of-select p id (r ∷ rest) = ground (arith, rows_of-select p id rest)
