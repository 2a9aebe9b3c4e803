-- ===== src/Memory/Extract/Forgotten.antt =====
-- What has a tombstone is suppressed, and an extraction removes no tombstone.
use concierge_agent.Prelude.{
  ◌≡◌, refl, sym, ◌∙◌, String, Bool, true, false, true≢false, not, ◌&&◌, Option, none, some, List,
  [], ◌∷◌, map, inl, inr, if-both, Bool-cases, ◌==◌, nat_eq, string_eq, option_eq, list_eq, select,
  any_where, is_nil, Option-cases,
}
use concierge_agent.Prelude.Clock.{Instant}
use concierge_agent.Factory.Json.{Fields}
use concierge_agent.Memory.Words.{Text}
use concierge_agent.Memory.Tokens.{normalized_hash}
use concierge_agent.Memory.Rows.{Uuid, Memory, MemoryTombstone, Store, get_memory}
use concierge_agent.Memory.Tombstones.{
  Env, is_exact, matching_tombstones, count_suppression, is_among, check_suppressed,
}
use concierge_agent.Memory.Store.{
  Note, Written, remember, refusal_of, assert_again, dangles, validate, is_machine,
}
use concierge_agent.Memory.Changes.{Revision, is_open, replace_seen, supersede}
use concierge_agent.Memory.Extract.{
  Extraction, add_candidate, replace_match, by_neighbors, resolve_candidate, write_candidate,
}

-- A tombstone with the hash, the scope and the owner.
abbrev pub has_tombstone : Text → String → Option Uuid → List MemoryTombstone → Bool
has_tombstone hash scope user table =
    any_where (λ t. t.text_hash == hash && t.scope == scope && t.user_id == user) table

module _ {A : Type 0} (p : A → Bool) where
  select-some :
      (xs : List A) → any_where p xs ≡ true → (a : A) × (rest : List A) × (select p xs ≡ a ∷ rest)
  select-some [] h = absurd (true≢false (sym h))
  select-some (x ∷ xs) h = elim (Bool-cases (p x)) [
    | inl hit ↦ rw hit (x, select p xs, refl)
    | inr miss ↦ rw miss (select-some xs (rw miss at h))
  ]

  any_where-map :
      (f : A → A) (xs : List A)
      → ((a : A) → p (f a) ≡ p a)
      → any_where p (map f xs) ≡ any_where p xs
  any_where-map f [] h = refl
  any_where-map f (x ∷ xs) h = rw (h x, any_where-map f xs h) refl

matching-found :
    (env : Env) (text : Text) (scope : String) (user : Option Uuid) (table : List MemoryTombstone)
    → has_tombstone (normalized_hash env.unicode text) scope user table ≡ true
    → is_nil (matching_tombstones env text scope user table) ≡ false
unfolding matching_tombstones
matching-found env text scope user table h =
    let (t, rest, e) = select-some (is_exact env text scope user) table h in rw e refl

-- What has a tombstone is suppressed.
pub check_suppressed-true :
    (env : Env) (text : Text) (scope : String) (user : Option Uuid) (table : List MemoryTombstone)
    → env.forget_enabled ≡ true
    → has_tombstone (normalized_hash env.unicode text) scope user table ≡ true
    → (check_suppressed env text scope user table).0 ≡ true
unfolding check_suppressed
check_suppressed-true env text scope user table on h =
    rw (on, matching-found env text scope user table h) refl

count_suppression-keeps :
    (now : Instant) (hits : List MemoryTombstone) (hash : Text) (scope : String)
    (user : Option Uuid) (t : MemoryTombstone)
    → let u = count_suppression now hits t in
      (u.text_hash == hash && u.scope == scope && u.user_id == user)
      ≡ (t.text_hash == hash && t.scope == scope && t.user_id == user)
count_suppression-keeps now hits hash scope user t =
    if-both
      (λ (u : MemoryTombstone).
        (u.text_hash == hash && u.scope == scope && u.user_id == user)
        ≡ (t.text_hash == hash && t.scope == scope && t.user_id == user))
      (is_among hits t) _ t (λ a. refl) (λ a. refl)

module _ (hash : Text) (scope : String) (user : Option Uuid) where
  pub check_suppressed-keeps :
      (env : Env) (text : Text) (at : String) (owner : Option Uuid) (table : List MemoryTombstone)
      → has_tombstone hash scope user table ≡ true
      → has_tombstone hash scope user ((check_suppressed env text at owner table).1) ≡ true
  unfolding check_suppressed
  check_suppressed-keeps env text at owner table h =
      let P = λ (o : Bool × List MemoryTombstone). has_tombstone hash scope user o.1 ≡ true in
      if-both P (not env.forget_enabled) _ _ (λ a. h)
        (λ a.
          if-both P (is_nil (matching_tombstones env text at owner table)) _ _ (λ b. h)
            (λ b.
              any_where-map _
                (count_suppression env.now (matching_tombstones env text at owner table)) table
                (count_suppression-keeps env.now _ hash scope user)
              ∙ h))

assert_again-tombstones :
    (env : Env) (n : Note) (s : Store)
    → (n.source == "user_stated") ≡ false
    → (assert_again env n s).tombstones ≡ s.tombstones
unfolding assert_again
assert_again-tombstones env n s other = rw other refl

remember-tombstones :
    (env : Env) (n : Note) (s : Store)
    → (n.source == "user_stated") ≡ false
    → ((remember env n s).1).tombstones ≡ s.tombstones
unfolding remember
remember-tombstones env n s other = elim (Option-cases (refusal_of n)) [
  | inr (e, bad) ↦ rw (bad, remember) refl
  | inl fine ↦
      rw (fine, remember)
        (if-both (λ (o : Written × Store). o.1.tombstones ≡ s.tombstones)
          (dangles n.supersedes (assert_again env n s).memories) _ _
          (λ a. assert_again-tombstones env n s other) (λ a. assert_again-tombstones env n s other))
]

supersede-tombstones :
    (env : Env) (r : Revision) (seen : Option Memory) (s : Store)
    → ((supersede env r seen s).1).tombstones ≡ s.tombstones
unfolding supersede replace_seen
supersede-tombstones env r none s = refl
supersede-tombstones env r (some seen) s =
    let P = λ (o : Written × Store). o.1.tombstones ≡ s.tombstones in
    if-both P (not (seen.superseded_at == none)) _ _ (λ a. refl)
      (λ b.
        if-both P (not (is_nil (validate seen.kind seen.scope r.source))) _ _ (λ a. refl)
          (λ c.
            if-both P (is_machine r.source && r.run_id == none) _ _ (λ a. refl)
              (λ d.
                if-both P (not (any_where (is_open seen.id) s.memories)) _ _ (λ a. refl)
                  (λ e. refl))))

replace_match-tombstones :
    (x : Extraction) (row : Memory) (s : Store)
    → ((replace_match x row s).1).tombstones ≡ s.tombstones
unfolding replace_match
replace_match-tombstones x row s =
    if-both (λ (o : Option Written × Store). o.1.tombstones ≡ s.tombstones)
      (x.env.unicode.lower row.text == x.env.unicode.lower x.candidate.text) _ _ (λ a. refl)
      (λ a. supersede-tombstones x.env _ (get_memory row.id s.memories) s)

add_candidate-tombstones :
    (x : Extraction) (payload : Option Fields) (s : Store)
    → ((add_candidate x payload s).1).tombstones ≡ s.tombstones
unfolding add_candidate
add_candidate-tombstones x payload s = remember-tombstones x.env _ s refl

by_neighbors-tombstones :
    (x : Extraction) (same : List Memory) (s : Store)
    → ((by_neighbors x same s).1).tombstones ≡ s.tombstones
unfolding by_neighbors
by_neighbors-tombstones x [] s = add_candidate-tombstones x x.candidate.payload s
by_neighbors-tombstones x (m ∷ rest) s = replace_match-tombstones x _ s

resolve_candidate-tombstones :
    (x : Extraction) (found : Option Memory) (s : Store)
    → ((resolve_candidate x found s).1).tombstones ≡ s.tombstones
unfolding resolve_candidate
resolve_candidate-tombstones x (some row) s = replace_match-tombstones x row s
resolve_candidate-tombstones x none s = by_neighbors-tombstones x _ s

pub write_candidate-tombstones :
    (x : Extraction) (s : Store) → ((write_candidate x s).1).tombstones ≡ s.tombstones
unfolding write_candidate
write_candidate-tombstones x s =
    if-both (λ (o : Option Written × Store). o.1.tombstones ≡ s.tombstones)
      (x.candidate.kind == "instruction") _ _ (λ a. add_candidate-tombstones x none s)
      (λ a. resolve_candidate-tombstones x _ s)
