-- ===== src/Memory/Words.antt =====
-- " ".join(text.split()) on the code points of a text (used by backend/app/memory/store.py).
use concierge_agent.Prelude.{
  ℕ, ◌≡◌, refl, ap, ◌∙◌, Bool, false, ◌&&◌, ◌||◌, List, [], ◌∷◌, ◌++◌, append-nil, append_assoc,
  leb, if◌then◌else◌, if-both, contains, nat_eq, All, All-append,
}

abbrev pub Text : Type 0
Text = List ℕ

-- str.isspace
unfoldable pub is_space : ℕ → Bool
is_space c =
    leb 9 c && leb c 13
    || leb 28 c && leb c 32
    || leb 8192 c && leb c 8202
    || contains c (133 ∷ 160 ∷ 5760 ∷ 8232 ∷ 8233 ∷ 8239 ∷ 8287 ∷ 12288 ∷ [])

abbrev pub add_word : Text → List Text → List Text
add_word [] rest = rest
add_word (c ∷ w) rest = (c ∷ w) ∷ rest

module _ (is_gap : ℕ → Bool) where
  -- The words of a text of which `word` is read already.
  unfoldable pub split_from : Text → Text → List Text
  split_from word [] = add_word word []
  split_from word (c ∷ s) =
      let ended = split_from [] s in
      let longer = split_from (word ++ c ∷ []) s in if is_gap c then add_word word ended else longer

abbrev pub split : Text → List Text
split s = split_from is_space [] s

abbrev pub space : ℕ
space = 32

unfoldable join_rest : List Text → Text
join_rest [] = []
join_rest (w ∷ rest) = space ∷ w ++ join_rest rest

unfoldable join : List Text → Text
unfolding join_rest
join [] = []
join (w ∷ rest) = w ++ join_rest rest

unfoldable pub normalize : Text → Text
unfolding is_space split_from join join_rest
normalize s = join (split s)

-- A text without white space that has a first character.
abbrev pub IsWord : Text → Type 0
IsWord [] = ⊥
IsWord (c ∷ w) = All (λ x. is_space x ≡ false) (c ∷ w)

add_word-AllIsWord :
    (w : Text) (rest : List Text)
    → All (λ x. is_space x ≡ false) w
    → All IsWord rest
    → All IsWord (add_word w rest)
add_word-AllIsWord [] rest h k = k
add_word-AllIsWord (c ∷ w) rest h k = (h, k)

All-snoc :
    (w : Text) (c : ℕ)
    → All (λ x. is_space x ≡ false) w
    → is_space c ≡ false
    → All (λ x. is_space x ≡ false) (w ++ c ∷ [])
All-snoc w c h k = All-append _ w (c ∷ []) h (k, tt)

split_from-AllIsWord :
    (word s : Text) → All (λ x. is_space x ≡ false) word → All IsWord (split_from is_space word s)
unfolding split_from
split_from-AllIsWord word [] h = add_word-AllIsWord word [] h tt
split_from-AllIsWord word (c ∷ s) h =
    if-both (All IsWord) (is_space c) _ _
      (λ gap. add_word-AllIsWord word _ h (split_from-AllIsWord [] s tt))
      (λ more. split_from-AllIsWord (word ++ c ∷ []) s (All-snoc word c h more))

split_from-word :
    (u w s : Text)
    → All (λ x. is_space x ≡ false) w
    → split_from is_space u (w ++ s) ≡ split_from is_space (u ++ w) s
unfolding split_from
split_from-word u [] s h = rw (append-nil u) refl
split_from-word u (c ∷ w) s h = rw h.0 (
    split_from-word (u ++ c ∷ []) w s h.1
    ∙ ap (λ v. split_from is_space v s) (append_assoc u (c ∷ []) w))

split_from-join_rest :
    (u : Text) (rest : List Text)
    → All IsWord rest
    → split_from is_space u (join_rest rest) ≡ add_word u rest
unfolding split_from join_rest is_space
split_from-join_rest u [] h = refl
split_from-join_rest u ([] ∷ rest) h = absurd h.0
split_from-join_rest u ((c ∷ w) ∷ rest) h =
    ap (add_word u)
      (split_from-word [] (c ∷ w) (join_rest rest) h.0 ∙ split_from-join_rest (c ∷ w) rest h.1)

split-join : (ws : List Text) → All IsWord ws → split (join ws) ≡ ws
unfolding join split_from
split-join [] h = refl
split-join ([] ∷ rest) h = absurd h.0
split-join ((c ∷ w) ∷ rest) h =
    split_from-word [] (c ∷ w) (join_rest rest) h.0 ∙ split_from-join_rest (c ∷ w) rest h.1

-- What is normal stays as it is.
pub normalize_idem : (s : Text) → normalize (normalize s) ≡ normalize s
unfolding normalize
normalize_idem s = ap join (split-join (split s) (split_from-AllIsWord [] s tt))
