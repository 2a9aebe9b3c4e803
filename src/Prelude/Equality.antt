-- ===== src/Prelude/Equality.antt =====
-- Python's `==` on the values that the program compares.
use Prim.Native.Nat.{ℕ, compare, Ordering}
use Prim.Native.String.{String}
use mathlib.Core.Path.{◌≡◌, sym}
use mathlib.Core.Logic.{◌↔◌, ◌≢◌, inl, inr}
use mathlib.Core.Bool.{Bool, true, false, ◌||◌, ◌&&◌}
use mathlib.Core.Option.{Option, none, some}
use mathlib.Core.List.{List, [], ◌∷◌}
use native.Mathlib.Omega.{arith}
use text.Mathlib.Text.{◌==◌ as str_eq}
use text.Mathlib.TextEquality.{eq_iff}
use concierge_agent.Prelude.Tests.{Bool-cases}
use concierge_agent.Prelude.Lists.{IsIn}

pub record Comparable {ℓ} (A : Type ℓ) : Type ℓ where
  pub beq : A → A → Bool
  pub decides : (a b : A) → (beq a b ≡ true) ↔ (a ≡ b)

abbrev nat_beq : ℕ → ℕ → Bool
nat_beq a b = elim (compare a b) [ Ordering.eq ↦ true | _ ↦ false ]

pub nat_beq_iff : (a b : ℕ) → (nat_beq a b ≡ true) ↔ (a ≡ b)
nat_beq_iff a b = ground arith

instance abbrev pub string_eq : Comparable String
string_eq = record { beq = str_eq; decides = eq_iff }

instance abbrev pub nat_eq : Comparable ℕ
nat_eq = record { beq = nat_beq; decides = nat_beq_iff }

infix 50 ◌==◌
abbrev pub ◌==◌ {ℓ} : {A : Type ℓ} ⦃c : Comparable A⦄ → A → A → Bool
◌==◌ ⦃c⦄ x y = c.beq x y

module _ {ℓ} {A : Type ℓ} ⦃e : Comparable A⦄ where
  abbrev option_beq : Option A → Option A → Bool
  option_beq none none = true
  option_beq none (some b) = false
  option_beq (some a) none = false
  option_beq (some a) (some b) = a == b

  pub option_beq_iff : (a b : Option A) → (option_beq a b ≡ true) ↔ (a ≡ b)
  option_beq_iff none none = ground arith
  option_beq_iff none (some b) = ground arith
  option_beq_iff (some a) none = ground arith
  option_beq_iff (some a) (some b) = ground (arith, e.decides a b)

  instance abbrev pub option_eq : Comparable (Option A)
  option_eq = record { beq = option_beq; decides = option_beq_iff }

  abbrev list_beq : List A → List A → Bool
  list_beq [] [] = true
  list_beq [] (y ∷ ys) = false
  list_beq (x ∷ xs) [] = false
  list_beq (x ∷ xs) (y ∷ ys) = x == y && list_beq xs ys

  pub list_beq_iff : (xs ys : List A) → (list_beq xs ys ≡ true) ↔ (xs ≡ ys)
  list_beq_iff [] [] = ground arith
  list_beq_iff [] (y ∷ ys) = ground arith
  list_beq_iff (x ∷ xs) [] = ground arith
  list_beq_iff (x ∷ xs) (y ∷ ys) = ground (arith, e.decides x y, list_beq_iff xs ys)

  instance abbrev pub list_eq : Comparable (List A)
  list_eq = record { beq = list_beq; decides = list_beq_iff }

  -- `a in xs`
  abbrev pub contains : A → List A → Bool
  contains a [] = false
  contains a (x ∷ xs) = x == a || contains a xs

  pub ==_refl : (a : A) → (a == a) ≡ true
  ==_refl a = (e.decides a a).1 (λ i. a)

  pub ==_eq : (a b : A) → (a == b) ≡ true → a ≡ b
  ==_eq a b = (e.decides a b).0

  pub ==_ne : (a b : A) → (a == b) ≡ false → a ≢ b
  ==_ne a b h same = ground (arith, (e.decides a b).1 same)

  pub ==_ne_iff : (a b : A) → a ≢ b → (a == b) ≡ false
  ==_ne_iff a b h = elim (Bool-cases (a == b)) [
    | inl same ↦ absurd (h (==_eq a b same))
    | inr other ↦ other
  ]

module _ {A : Type 0} ⦃e : Comparable A⦄ where
  pub contains-IsIn : (a : A) (xs : List A) → contains a xs ≡ true → IsIn a xs
  contains-IsIn a [] h = cc
  contains-IsIn a (x ∷ xs) h = elim (Bool-cases (x == a)) [
    | inl same ↦ inl (sym (==_eq x a same))
    | inr other ↦ inr (contains-IsIn a xs (rw other at h))
  ]

  pub IsIn-contains : (a : A) (xs : List A) → IsIn a xs → contains a xs ≡ true
  IsIn-contains a [] h = absurd h
  IsIn-contains a (x ∷ xs) (inl same) = rw (same, ==_refl x)
  IsIn-contains a (x ∷ xs) (inr h) = ground (arith, IsIn-contains a xs h)
