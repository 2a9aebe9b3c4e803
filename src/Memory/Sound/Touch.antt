-- ===== src/Memory/Sound/Touch.antt =====
-- The operations that change rows in place keep the table sound: a row may be touched if its
-- identity stays.
use concierge_agent.Prelude.{
  ◌≡◌, refl, sym, ap, subst, ◌∙◌, some, List, [], ◌∷◌, map, IsIn, inl, inr, All, AreDistinctBy,
}
use concierge_agent.Memory.Rows.{Memory, ids}
use concierge_agent.Memory.Sound.{core_of, IsRow, IsLinked, IsTable}

-- The second row is the first with other columns than those of the core and of the supersession.
pub record Touches (a b : Memory) : Type 0 where
  pub core : core_of a ≡ core_of b
  pub at : a.superseded_at ≡ b.superseded_at
  pub by : a.superseded_by ≡ b.superseded_by
  pub row : IsRow a → IsRow b

abbrev pub AreTouched : List Memory → List Memory → Type 0
AreTouched [] [] = Unit
AreTouched [] (y ∷ ys) = ⊥
AreTouched (x ∷ xs) [] = ⊥
AreTouched (x ∷ xs) (y ∷ ys) = Touches x y × AreTouched xs ys

pub map-AreTouched :
    (f : Memory → Memory) (rows : List Memory)
    → ((m : Memory) → IsIn m rows → Touches m (f m))
    → AreTouched rows (map f rows)
map-AreTouched f [] h = tt
map-AreTouched f (m ∷ rows) h = (h m (inl refl), map-AreTouched f rows (λ n at. h n (inr at)))

pub same-Touches : (m : Memory) → Touches m m
same-Touches m = record { core = refl; at = refl; by = refl; row = λ r. r }

pub same-AreTouched : (rows : List Memory) → AreTouched rows rows
same-AreTouched [] = tt
same-AreTouched (m ∷ rows) = (same-Touches m, same-AreTouched rows)

pub after :
    (xs ys : List Memory) (m : Memory)
    → AreTouched xs ys
    → IsIn m xs
    → (n : Memory) × IsIn n ys × Touches m n
after [] ys m h at = absurd at
after (x ∷ xs) [] m h at = absurd h
after (x ∷ xs) (y ∷ ys) m h (inl e) = (y, inl refl, subst (λ a. Touches a y) (sym e) h.0)
after (x ∷ xs) (y ∷ ys) m h (inr at) = let (n, there, t) = after xs ys m h.1 at in (n, inr there, t)

pub before :
    (xs ys : List Memory) (n : Memory)
    → AreTouched xs ys
    → IsIn n ys
    → (m : Memory) × IsIn m xs × Touches m n
before xs [] n h at = absurd at
before [] (y ∷ ys) n h at = absurd h
before (x ∷ xs) (y ∷ ys) n h (inl e) = (x, inl refl, subst (Touches x) (sym e) h.0)
before (x ∷ xs) (y ∷ ys) n h (inr at) =
    let (m, there, t) = before xs ys n h.1 at in (m, inr there, t)

id_of : (a b : Memory) → Touches a b → a.id ≡ b.id
id_of a b t = ap (λ c. c.id) t.core

pub AreTouched-ids : (xs ys : List Memory) → AreTouched xs ys → ids xs ≡ ids ys
AreTouched-ids [] [] h = refl
AreTouched-ids [] (y ∷ ys) h = absurd h
AreTouched-ids (x ∷ xs) [] h = absurd h
AreTouched-ids (x ∷ xs) (y ∷ ys) h = cc (id_of x y h.0, AreTouched-ids xs ys h.1)

AreTouched-AreDistinctBy :
    (xs ys : List Memory)
    → AreTouched xs ys
    → AreDistinctBy (λ m. m.id) xs
    → AreDistinctBy (λ m. m.id) ys
AreTouched-AreDistinctBy [] [] h d = tt
AreTouched-AreDistinctBy [] (y ∷ ys) h d = absurd h
AreTouched-AreDistinctBy (x ∷ xs) [] h d = absurd h
AreTouched-AreDistinctBy (x ∷ xs) (y ∷ ys) h d = (
  λ at. d.0 (rw (id_of x y h.0, AreTouched-ids xs ys h.1) at),
  AreTouched-AreDistinctBy xs ys h.1 d.1,
)

AreTouched-All : (xs ys : List Memory) → AreTouched xs ys → All IsRow xs → All IsRow ys
AreTouched-All [] [] h k = tt
AreTouched-All [] (y ∷ ys) h k = absurd h
AreTouched-All (x ∷ xs) [] h k = absurd h
AreTouched-All (x ∷ xs) (y ∷ ys) h k = (h.0.row k.0, AreTouched-All xs ys h.1 k.1)

AreTouched-IsLinked :
    (xs ys : List Memory) (n : Memory)
    → AreTouched xs ys
    → ((m : Memory) → IsIn m xs → IsLinked xs m)
    → IsIn n ys
    → IsLinked ys n
AreTouched-IsLinked xs ys n h linked at =
    let (m, old, t) = before xs ys n h at in
    record {
      older = λ i e.
          rw (← AreTouched-ids xs ys h)
            ((linked m old).older i (ap (λ c. c.supersedes) t.core ∙ e));
      newer = λ k e.
          let (r, there, name, back) = (linked m old).newer k (t.by ∙ e) in
          let (s, found, u) = after xs ys r h there in
          (
            s,
            found,
            sym (id_of r s u) ∙ name,
            sym (ap (λ c. c.supersedes) u.core) ∙ back ∙ ap (λ c. some c.id) t.core,
          );
    }

-- A table whose rows are touched stays sound.
pub AreTouched-IsTable : (xs ys : List Memory) → AreTouched xs ys → IsTable xs → IsTable ys
AreTouched-IsTable xs ys h t = record {
  distinct = AreTouched-AreDistinctBy xs ys h t.distinct;
  each = AreTouched-All xs ys h t.each;
  linked = λ n at. AreTouched-IsLinked xs ys n h t.linked at;
}
