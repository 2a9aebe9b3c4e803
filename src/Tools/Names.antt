-- ===== src/Tools/Names.antt =====
-- The names under which a model sees the tools (sanitize_tool_name of
-- backend/app/factory/worker.py), and tables in which they differ.
use concierge_agent.Prelude.{
  ℕ, String, Bool, true, false, ◌&&◌, ◌||◌, List, [], ◌∷◌, map, leb, if◌then◌else◌, ◌==◌, nat_eq,
}
use concierge_agent.Prelude.Text.{codes}

-- [a-zA-Z0-9_-]
is_name_code : ℕ → Bool
is_name_code c =
    (leb b'a' c && leb c b'z')
    || (leb b'A' c && leb c b'Z')
    || (leb b'0' c && leb c b'9')
    || c == b'_'
    || c == b'-'

unfoldable pub sanitize_tool_name : String → List ℕ
unfolding is_name_code
sanitize_tool_name key = map (λ c. if is_name_code c then c else b'_') (codes key)

-- Whether two keys bind under one name.
unfoldable pub same_name : String → String → Bool
unfolding sanitize_tool_name
same_name a b = beq_codes (sanitize_tool_name a) (sanitize_tool_name b)
  where
    beq_codes : List ℕ → List ℕ → Bool
    beq_codes [] [] = true
    beq_codes (x ∷ xs) (y ∷ ys) = x == y && beq_codes xs ys
    beq_codes _ _ = false
