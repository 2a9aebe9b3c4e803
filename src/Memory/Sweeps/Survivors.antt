-- ===== src/Memory/Sweeps/Survivors.antt =====
-- In each group that has an active row, one of the newest stays active.
use concierge_agent.Prelude.{
  ◌≡◌, refl, sym, subst, ◌∙◌, true, false, true≢false, not, ◌&&◌, List, [], ◌∷◌, ◌⊎◌, inl, inr,
  IsIn, any_where, any_where-IsIn, if-both, Bool-cases, &&-true, nat_eq, string_eq, option_eq,
}
use concierge_agent.Memory.Rows.{Memory, Store}
use concierge_agent.Memory.Sound.Added.{not-true}
use concierge_agent.Memory.Sweeps.{
  is_contested, is_rival, is_newer, is_outranked, quarantine, resolve, resolve_rows,
  contradiction_sweep,
}
use concierge_agent.Memory.Sweeps.Newest.{
  later_asym, later_trans, newer_irrefl, rival_of, rival_parts, rival_trans, in_rows, AreApart,
  resolve_rows-AreApart,
}

-- A row of the list stands against `m` and is not older.
abbrev Match : Memory → List Memory → Type 0
Match m rows = (k : Memory) × IsIn k rows × (is_rival k m ≡ true) × (is_newer m k ≡ false)

newer_asym : (a b : Memory) → is_newer a b ≡ true → is_newer b a ≡ false
newer_asym a b h = later_asym a.valid_from a.recorded_at b.valid_from b.recorded_at h

newer_trans : (a b c : Memory) → is_newer a b ≡ false → is_newer b c ≡ false → is_newer a c ≡ false
newer_trans a b c h k =
    later_trans a.valid_from a.recorded_at b.valid_from b.recorded_at c.valid_from c.recorded_at h k

-- A match of a match is a match.
raise :
    (m b : Memory) (rows : List Memory)
    → is_rival b m ≡ true
    → is_newer m b ≡ false
    → Match b rows
    → Match m rows
raise m b rows rival above (k, at, with, over) =
    (k, at, rival_trans k b m with rival, newer_trans m b k above over)

raise_either :
    (m b : Memory) (xs ys : List Memory)
    → is_rival b m ≡ true
    → is_newer m b ≡ false
    → Match b xs ⊎ Match b ys
    → Match m xs ⊎ Match m ys
raise_either m b xs ys rival above (inl h) = inl (raise m b xs rival above h)
raise_either m b xs ys rival above (inr h) = inr (raise m b ys rival above h)

behind : (m x : Memory) (xs : List Memory) → Match m xs → Match m (x ∷ xs)
behind m x xs (k, at, with, over) = (k, inr at, with, over)

-- What is known of the rest of a table, of which `x` and the earlier rows are above.
abbrev Rest : Memory → List Memory → List Memory → Type 0
Rest x earlier rest =
    (m : Memory)
    → IsIn m rest
    → is_contested m ≡ true
    → Match m (x ∷ earlier) ⊎ Match m (resolve_rows (x ∷ earlier) rest)

module _ (earlier rest : List Memory) (x : Memory) (known : Rest x earlier rest) where
  abbrev swept : List Memory
  swept = resolve earlier rest x ∷ resolve_rows (x ∷ earlier) rest

  -- A later row that is newer leads to a match for `x`.
  beaten :
      (r : Memory)
      → IsIn r rest
      → is_rival r x ≡ true
      → is_newer r x ≡ true
      → Match x earlier ⊎ Match x swept
  beaten r at rival over = elim (known r at ((rival_parts r x rival).0)) [
    | inl (b, inl e, with, under) ↦
        absurd (true≢false (sym over ∙ subst (λ k. is_newer r k ≡ false) e under))
    | inl (b, inr there, with, under) ↦
        inl (raise x r earlier rival (newer_asym r x over) (b, there, with, under))
    | inr found ↦ inr (raise x r swept rival (newer_asym r x over) (behind r _ _ found))
  ]

  outranked : is_outranked earlier rest x ≡ true → Match x earlier ⊎ Match x swept
  unfolding is_outranked
  outranked low =
      let above = λ (r : Memory). is_rival r x && not (is_newer x r) in
      let over = λ (r : Memory). is_rival r x && is_newer r x in
      elim (Bool-cases (any_where above earlier)) [
        | inl hit ↦
            let (b, at, both) = any_where-IsIn above earlier hit in
            let (rival, under) = &&-true (is_rival b x) _ both in
            inl (b, at, rival, not-true _ under)
        | inr miss ↦
            let (r, at, both) = any_where-IsIn over rest (rw miss at low) in
            let (rival, wins) = &&-true (is_rival r x) _ both in beaten r at rival wins
      ]

  first : is_contested x ≡ true → Match x earlier ⊎ Match x swept
  unfolding resolve
  first active = elim (Bool-cases (is_outranked earlier rest x)) [
    | inr top ↦ rw (active, top) (inr (x, inl refl, rival_of x x active refl refl, newer_irrefl x))
    | inl low ↦ outranked low
  ]

  match : (m : Memory) → IsIn m (x ∷ rest) → is_contested m ≡ true → Match m earlier ⊎ Match m swept
  match m (inl e) active =
      subst (λ k. Match k earlier ⊎ Match k swept) (sym e)
        (first (subst (λ k. is_contested k ≡ true) e active))
  match m (inr at) active = elim (known m at active) [
    | inl (b, inl e, with, under) ↦
        let rival = subst (λ k. is_rival k m ≡ true) e with in
        raise_either m x earlier swept rival (subst (λ k. is_newer m k ≡ false) e under)
          (first ((rival_parts x m rival).0))
    | inl (b, inr there, with, under) ↦ inl (b, there, with, under)
    | inr found ↦ inr (behind m _ _ found)
  ]

matched :
    (earlier rows : List Memory) (m : Memory)
    → IsIn m rows
    → is_contested m ≡ true
    → Match m earlier ⊎ Match m (resolve_rows earlier rows)
unfolding resolve_rows
matched earlier [] m at active = absurd at
matched earlier (x ∷ rest) m at active =
    match earlier rest x (λ n there on. matched (x ∷ earlier) rest n there on) m at active

-- Row by row: as it was, or put in quarantine.
abbrev pub AreResolved : List Memory → List Memory → Type 0
AreResolved [] [] = Unit
AreResolved [] (y ∷ ys) = ⊥
AreResolved (x ∷ xs) [] = ⊥
AreResolved (x ∷ xs) (y ∷ ys) =
    ((y ≡ x) ⊎ ((is_contested x ≡ true) × (y ≡ quarantine x))) × AreResolved xs ys

resolve_rows-AreResolved :
    (earlier rows : List Memory) → AreResolved rows (resolve_rows earlier rows)
unfolding resolve_rows resolve
resolve_rows-AreResolved earlier [] = tt
resolve_rows-AreResolved earlier (x ∷ rest) = (
  if-both (λ y. (y ≡ x) ⊎ ((is_contested x ≡ true) × (y ≡ quarantine x)))
      (is_contested x && is_outranked earlier rest x) _ _
      (λ low. inr ((&&-true (is_contested x) _ low).0, refl)) (λ top. inl refl),
  resolve_rows-AreResolved (x ∷ earlier) rest,
)

pub record IsSwept (before after : List Memory) : Type 0 where
  pub apart : AreApart after
  pub newest :
      (m : Memory)
      → IsIn m before
      → is_contested m ≡ true
      → (k : Memory) × IsIn k after × IsIn k before × (is_rival k m ≡ true) × (is_newer m k ≡ false)
  pub others : AreResolved before after

survivor :
    (rows : List Memory) (m : Memory)
    → Match m [] ⊎ Match m (resolve_rows [] rows)
    → (k : Memory) × IsIn k (resolve_rows [] rows)
      × IsIn k rows
      × (is_rival k m ≡ true)
      × (is_newer m k ≡ false)
survivor rows m (inl (k, at, rival, over)) = absurd at
survivor rows m (inr (k, at, rival, over)) =
    (k, at, (in_rows [] rows k at ((rival_parts k m rival).0)).0, rival, over)

-- The contradiction sweep, if its switch is on: afterwards no two active rows have one scope and one
-- entity key; of each active row with a key, a row of its scope and key that is as new or newer
-- stays active, as it was; and each row is as it was, or an active one that is put in quarantine.
pub contradiction_sweep-IsSwept :
    (s : Store) → IsSwept s.memories ((contradiction_sweep true s).1).memories
unfolding contradiction_sweep
contradiction_sweep-IsSwept s = record {
  apart = resolve_rows-AreApart [] s.memories;
  newest = λ m at active. survivor s.memories m (matched [] s.memories m at active);
  others = resolve_rows-AreResolved [] s.memories;
}
