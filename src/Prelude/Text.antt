-- ===== src/Prelude/Text.antt =====
-- Texts as lists of code points.
use Prim.Native.Char.{code}
use Prim.Native.Nat.{ℕ}
use Prim.Native.String.{String, ◌++◌}
use mathlib.Core.Bool.{Bool, true, false, ◌&&◌, ◌||◌}
use mathlib.Core.List.{List, [], ◌∷◌}
use concierge_agent.Prelude.Equality.{◌==◌, nat_eq}

-- The texts one after the other.
abbrev pub concat : List String → String
concat [] = ""
concat (s ∷ rest) = s ++ concat rest

abbrev pub codes : String → List ℕ
codes String.[] = []
codes (String.◌∷◌ c s) = code c ∷ codes s

-- The first list is a prefix of the second.
abbrev pub starts_with : List ℕ → List ℕ → Bool
starts_with [] ys = true
starts_with (x ∷ xs) [] = false
starts_with (x ∷ xs) (y ∷ ys) = x == y && starts_with xs ys

-- The first list stands somewhere in the second.
abbrev pub occurs : List ℕ → List ℕ → Bool
occurs xs [] = starts_with xs []
occurs xs (y ∷ ys) = starts_with xs (y ∷ ys) || occurs xs ys
