-- ===== src/Prelude/Lists.antt =====
-- Lists measured by native numbers, and predicates by recursion.
use Prim.Native.Nat.{ℕ, suc, ◌+◌}
use mathlib.Core.Path.{◌≡◌, refl, ap, sym, subst, ◌∙◌}
use mathlib.Core.Logic.{◌⊎◌, inl, inr}
use mathlib.Core.Bool.{Bool, true, false, true≢false}
use mathlib.Core.Option.{Option, none, some}
use mathlib.Core.List.{List, [], ◌∷◌, ◌++◌, map}
use native.Mathlib.Omega.{arith}
use concierge_agent.Prelude.Tests.{if◌then◌else◌, Bool-cases}

module _ {ℓ} {A : Type ℓ} where
  abbrev pub length : List A → ℕ
  length [] = 0
  length (x ∷ xs) = suc (length xs)

  pub length-append : (xs ys : List A) → length (xs ++ ys) ≡ length xs + length ys
  length-append [] ys = omega arith
  length-append (x ∷ xs) ys = omega (arith, length-append xs ys)

  -- SELECT ... WHERE p
  abbrev pub select : (A → Bool) → List A → List A
  select p [] = []
  select p (x ∷ xs) = let rest = select p xs in if p x then x ∷ rest else rest

  -- SELECT count(*) WHERE p
  abbrev pub count_where : (A → Bool) → List A → ℕ
  count_where p [] = 0
  count_where p (x ∷ xs) = let rest = count_where p xs in if p x then suc rest else rest

  abbrev pub any_where : (A → Bool) → List A → Bool
  any_where p [] = false
  any_where p (x ∷ xs) = let rest = any_where p xs in if p x then true else rest

  abbrev pub find_where : (A → Bool) → List A → Option A
  find_where p [] = none
  find_where p (x ∷ xs) = let rest = find_where p xs in if p x then some x else rest

  abbrev pub is_nil : List A → Bool
  is_nil [] = true
  is_nil (x ∷ xs) = false

  -- Every item of the list has the property.
  abbrev pub All {κ} : (A → Type κ) → List A → Type κ
  All P [] = Unit
  All P (x ∷ xs) = P x × All P xs

module _ {A : Type 0} where
  -- `a` is an item of the list.
  abbrev pub IsIn : A → List A → Type 0
  IsIn a [] = ⊥
  IsIn a (x ∷ xs) = (a ≡ x) ⊎ IsIn a xs

module _ {ℓ κ} {A : Type ℓ} where
  pub All-map_of {μ} :
      (P : A → Type κ) (Q : A → Type μ) (xs : List A) → ((x : A) → P x → Q x) → All P xs → All Q xs
  All-map_of P Q [] f h = tt
  All-map_of P Q (x ∷ xs) f h = (f x h.0, All-map_of P Q xs f h.1)

  pub All-append : (P : A → Type κ) (xs ys : List A) → All P xs → All P ys → All P (xs ++ ys)
  All-append P [] ys h k = k
  All-append P (x ∷ xs) ys h k = (h.0, All-append P xs ys h.1 k)

module _ {κ} {A : Type 0} where
  pub All-IsIn : (P : A → Type κ) (xs : List A) (a : A) → All P xs → IsIn a xs → P a
  All-IsIn P [] a h m = absurd m
  All-IsIn P (x ∷ xs) a h (inl e) = rw e h.0
  All-IsIn P (x ∷ xs) a h (inr m) = All-IsIn P xs a h.1 m

  pub All-of_IsIn : (P : A → Type κ) (xs : List A) → ((a : A) → IsIn a xs → P a) → All P xs
  All-of_IsIn P [] f = tt
  All-of_IsIn P (x ∷ xs) f = (f x (inl refl), All-of_IsIn P xs (λ a m. f a (inr m)))

module _ {ℓ} {A : Type ℓ} where
  pub nil_of_append : (xs ys : List A) → xs ++ ys ≡ [] → (xs ≡ []) × (ys ≡ [])
  nil_of_append [] ys h = (refl, h)
  nil_of_append (x ∷ xs) ys h = cc

module _ {A B : Type 0} (key : A → B) where
  -- No two items have the same key.
  abbrev pub AreDistinctBy : List A → Type 0
  AreDistinctBy [] = Unit
  AreDistinctBy (x ∷ xs) = ¬ (IsIn (key x) (map key xs)) × AreDistinctBy xs

  pub IsIn-map_key : (x : A) (xs : List A) → IsIn x xs → IsIn (key x) (map key xs)
  IsIn-map_key x [] at = absurd at
  IsIn-map_key x (y ∷ ys) (inl e) = inl (ap key e)
  IsIn-map_key x (y ∷ ys) (inr at) = inr (IsIn-map_key x ys at)

  pub map_key-IsIn : (k : B) (xs : List A) → IsIn k (map key xs) → (x : A) × IsIn x xs × (k ≡ key x)
  map_key-IsIn k [] at = absurd at
  map_key-IsIn k (y ∷ ys) (inl e) = (y, inl refl, e)
  map_key-IsIn k (y ∷ ys) (inr at) = let (x, old, e) = map_key-IsIn k ys at in (x, inr old, e)

  pub same_item :
      (xs : List A) (x y : A) → AreDistinctBy xs → IsIn x xs → IsIn y xs → key x ≡ key y → x ≡ y
  same_item [] x y h at there e = absurd at
  same_item (z ∷ zs) x y h (inl p) (inl q) e = p ∙ sym q
  same_item (z ∷ zs) x y h (inl p) (inr q) e =
      absurd (h.0 (subst (λ k. IsIn k (map key zs)) (sym e ∙ ap key p) (IsIn-map_key y zs q)))
  same_item (z ∷ zs) x y h (inr p) (inl q) e =
      absurd (h.0 (subst (λ k. IsIn k (map key zs)) (e ∙ ap key q) (IsIn-map_key x zs p)))
  same_item (z ∷ zs) x y h (inr p) (inr q) e = same_item zs x y h.1 p q e

module _ {A : Type 0} where
  pub IsIn-select :
      (p : A → Bool) (a : A) (xs : List A) → IsIn a (select p xs) → IsIn a xs × (p a ≡ true)
  IsIn-select p a [] at = absurd at
  IsIn-select p a (x ∷ xs) at = elim (Bool-cases (p x)) [
    | inr miss ↦ let (old, hit) = IsIn-select p a xs (rw miss at at) in (inr old, hit)
    | inl hit ↦ elim (rw hit at at) [
      | inl e ↦ (inl e, rw e hit)
      | inr rest ↦ let (old, known) = IsIn-select p a xs rest in (inr old, known)
    ]
  ]

  pub select-IsIn :
      (p : A → Bool) (a : A) (xs : List A) → IsIn a xs → p a ≡ true → IsIn a (select p xs)
  select-IsIn p a [] at h = absurd at
  select-IsIn p a (x ∷ xs) (inl e) h = subst (λ y. IsIn a (select p (y ∷ xs))) e (rw h (inl refl))
  select-IsIn p a (x ∷ xs) (inr at) h = elim (Bool-cases (p x)) [
    | inl hit ↦ rw hit (inr (select-IsIn p a xs at h))
    | inr miss ↦ rw miss (select-IsIn p a xs at h)
  ]

  pub any_where-IsIn :
      (p : A → Bool) (xs : List A) → any_where p xs ≡ true → (a : A) × IsIn a xs × (p a ≡ true)
  any_where-IsIn p [] h = absurd (true≢false (sym h))
  any_where-IsIn p (x ∷ xs) h = elim (Bool-cases (p x)) [
    | inl hit ↦ (x, inl refl, hit)
    | inr miss ↦ let (a, at, found) = any_where-IsIn p xs (rw miss at h) in (a, inr at, found)
  ]

  pub none_where :
      (p : A → Bool) (xs : List A) (a : A) → any_where p xs ≡ false → IsIn a xs → p a ≡ false
  none_where p [] a h at = absurd at
  none_where p (x ∷ xs) a h at = elim (Bool-cases (p x)) [
    | inl hit ↦ absurd (true≢false (rw hit at h))
    | inr miss ↦ elim at [ inl e ↦ rw e miss | inr there ↦ none_where p xs a (rw miss at h) there ]
  ]
