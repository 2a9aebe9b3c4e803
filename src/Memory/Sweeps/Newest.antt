-- ===== src/Memory/Sweeps/Newest.antt =====
-- What the contradiction sweep leaves active.
use concierge_agent.Prelude.{
  ℕ, ◌≡◌, refl, sym, subst, ◌∙◌, Bool, true, false, not, ◌&&◌, ◌||◌, List, [], ◌∷◌, inl, inr, IsIn,
  any_where, none_where, ltb, Bool-cases, ◌==◌, ==_eq, ==_refl, &&-true, ||-false, true≢false,
  nat_eq, string_eq, option_eq, arith,
}
use concierge_agent.Memory.Rows.{Memory}
use concierge_agent.Memory.Sound.Added.{not-false}
use concierge_agent.Memory.Sweeps.{
  is_contested, is_rival, is_newer, is_outranked, resolve, resolve_rows,
}

-- The order of the sweep on the two times.
abbrev later : ℕ → ℕ → ℕ → ℕ → Bool
later v r w s = ltb w v || v == w && ltb s r

pub later_asym : (v r w s : ℕ) → later v r w s ≡ true → later w s v r ≡ false
later_asym v r w s h = ground arith

pub later_trans :
    (v r w s x y : ℕ) → later v r w s ≡ false → later w s x y ≡ false → later v r x y ≡ false
later_trans v r w s x y h k = ground arith

pub newer_irrefl : (m : Memory) → is_newer m m ≡ false
newer_irrefl m = ground arith

-- What a rival is.
pub rival_parts :
    (r m : Memory)
    → is_rival r m ≡ true
    → (is_contested r ≡ true) × (r.scope ≡ m.scope) × (r.entity_key ≡ m.entity_key)
rival_parts r m h =
    let (both, key) =
      &&-true (is_contested r && r.scope == m.scope) (r.entity_key == m.entity_key) h in
    let (active, scope) = &&-true (is_contested r) (r.scope == m.scope) both in
    (active, ==_eq r.scope m.scope scope, ==_eq r.entity_key m.entity_key key)

pub rival_of :
    (r m : Memory)
    → is_contested r ≡ true
    → r.scope ≡ m.scope
    → r.entity_key ≡ m.entity_key
    → is_rival r m ≡ true
rival_of r m active scope key = rw (active, scope, key, ==_refl m.scope, ==_refl m.entity_key) refl

rival_sym : (r m : Memory) → is_contested m ≡ true → is_rival r m ≡ true → is_rival m r ≡ true
rival_sym r m active h =
    let (_, scope, key) = rival_parts r m h in rival_of m r active (sym scope) (sym key)

pub rival_trans : (a b c : Memory) → is_rival a b ≡ true → is_rival b c ≡ true → is_rival a c ≡ true
rival_trans a b c h k =
    let (active, scope, key) = rival_parts a b h in
    let (_, scope_of, key_of) = rival_parts b c k in
    rival_of a c active (scope ∙ scope_of) (key ∙ key_of)

-- A row that is contested after the sweep is as it was, and nothing outranks it.
survives :
    (earlier rest : List Memory) (m : Memory)
    → is_contested (resolve earlier rest m) ≡ true
    → (resolve earlier rest m ≡ m) × (is_contested m ≡ true) × (is_outranked earlier rest m ≡ false)
unfolding resolve
survives earlier rest m = elim (Bool-cases (is_contested m)) [
  | inr idle ↦ rw idle (λ h. absurd (true≢false (sym h ∙ idle)))
  | inl active ↦ elim (Bool-cases (is_outranked earlier rest m)) [
    | inl beaten ↦ rw (active, beaten) (λ h. absurd (true≢false (sym h)))
    | inr top ↦ rw (active, top) (λ h. (refl, refl, refl))
  ]
]

module _ (earlier rest : List Memory) (m : Memory) (top : is_outranked earlier rest m ≡ false) where
  above_earlier : (b : Memory) → IsIn b earlier → is_rival b m ≡ true → is_newer m b ≡ true
  unfolding is_outranked
  above_earlier b at rival =
      let (none_before, _) =
        ||-false (any_where (λ r. is_rival r m && not (is_newer m r)) earlier) _ top in
      not-false (is_newer m b) (
        rw rival at (none_where (λ r. is_rival r m && not (is_newer m r)) earlier b none_before at))

  above_rest : (r : Memory) → IsIn r rest → is_rival r m ≡ true → is_newer r m ≡ false
  unfolding is_outranked
  above_rest r at rival =
      let (_, none_after) =
        ||-false (any_where (λ r. is_rival r m && not (is_newer m r)) earlier) _ top in
      rw rival at (none_where (λ r. is_rival r m && is_newer r m) rest r none_after at)

-- A row that is contested after the sweep of `rows` stands in them, above its rivals before them.
pub in_rows :
    (earlier rows : List Memory) (n : Memory)
    → IsIn n (resolve_rows earlier rows)
    → is_contested n ≡ true
    → IsIn n rows × ((b : Memory) → IsIn b earlier → is_rival b n ≡ true → is_newer n b ≡ true)
unfolding resolve_rows
in_rows earlier [] n at active = absurd at
in_rows earlier (m ∷ rest) n (inr at) active =
    let (old, above) = in_rows (m ∷ earlier) rest n at active in
    (inr old, λ b there. above b (inr there))
in_rows earlier (m ∷ rest) n (inl e) active =
    let (same, _, top) = survives earlier rest m (subst (λ k. is_contested k ≡ true) e active) in
    (
      inl (e ∙ same),
      subst (λ k. (b : Memory) → IsIn b earlier → is_rival b k ≡ true → is_newer k b ≡ true)
          (sym (e ∙ same)) (above_earlier earlier rest m top),
    )

-- No two rows of the list are active with one scope and one entity key.
abbrev pub AreApart : List Memory → Type 0
AreApart [] = Unit
AreApart (m ∷ rest) =
    ((r : Memory) → IsIn r rest → is_contested m ≡ true → is_rival r m ≡ false) × AreApart rest

resolve-apart :
    (earlier rest : List Memory) (m r : Memory)
    → IsIn r (resolve_rows (m ∷ earlier) rest)
    → is_contested (resolve earlier rest m) ≡ true
    → is_rival r (resolve earlier rest m) ≡ false
resolve-apart earlier rest m r at active =
    let (same, was, top) = survives earlier rest m active in
    elim (Bool-cases (is_rival r m)) [
      | inr apart ↦ rw same apart
      | inl rival ↦
          let (contested, _, _) = rival_parts r m rival in
          let (old, above) = in_rows (m ∷ earlier) rest r at contested in
          absurd (
            true≢false (
              sym (above m (inl refl) (rival_sym r m was rival))
              ∙ above_rest earlier rest m top r old rival))
    ]

pub resolve_rows-AreApart : (earlier rows : List Memory) → AreApart (resolve_rows earlier rows)
unfolding resolve_rows
resolve_rows-AreApart earlier [] = tt
resolve_rows-AreApart earlier (m ∷ rest) = (
  λ r at active. resolve-apart earlier rest m r at active,
  resolve_rows-AreApart (m ∷ earlier) rest,
)
