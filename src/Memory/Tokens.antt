-- ===== src/Memory/Tokens.antt =====
-- The hashes that a tombstone keeps of a text (normalized_hash and distinctive_token_hashes of
-- backend/app/memory/store.py). `Unicode` stands for str.lower and SHA-256.
use concierge_agent.Prelude.{
  ℕ, Bool, ◌&&◌, ◌||◌, not, List, [], ◌∷◌, map, leb, if◌then◌else◌, ◌==◌, nat_eq, any_where, select,
  length, zero, suc,
}
use concierge_agent.Memory.Words.{Text, split_from, normalize}

pub record Unicode : Type 0 where
  pub lower : Text → Text
  pub sha256 : Text → Text

abbrev pub normalized_hash : Unicode → Text → Text
normalized_hash u text = u.sha256 (u.lower (normalize text))

abbrev is_digit : ℕ → Bool
is_digit c = leb b'0' c && leb c b'9'

abbrev is_mark : ℕ → Bool
is_mark c = c == b'-' || c == b'_' || c == b'.'

-- [^a-z0-9\-_.]
is_separator : ℕ → Bool
is_separator c = not (leb b'a' c && leb c b'z' || is_digit c || is_mark c)

strip_start : Text → Text
strip_start [] = []
strip_start (c ∷ s) = let rest = strip_start s in if is_mark c then rest else c ∷ s

put_before : ℕ → Text → Text
put_before c [] = if is_mark c then [] else c ∷ []
put_before c (d ∷ s) = c ∷ d ∷ s

strip_end : Text → Text
strip_end [] = []
strip_end (c ∷ s) = put_before c (strip_end s)

is_distinctive : Text → Bool
is_distinctive tok =
    leb 10 (length tok) || leb 6 (length tok) && any_where (λ c. is_digit c || is_mark c) tok

take : ℕ → Text → Text
take zero s = []
take (suc n) [] = []
take (suc n) (c ∷ s) = c ∷ take n s

-- The set that the source sorts is only read as a set: here, with repeats, in the order of the text.
unfoldable pub distinctive_token_hashes : Unicode → Text → List Text
unfolding is_separator strip_start strip_end put_before is_distinctive take split_from
distinctive_token_hashes u text =
    map (λ tok. take 16 (u.sha256 tok))
      (select is_distinctive (
        map (λ tok. strip_end (strip_start tok))
          (split_from is_separator [] (u.lower (normalize text)))))
