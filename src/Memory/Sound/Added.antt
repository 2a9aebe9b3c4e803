-- ===== src/Memory/Sound/Added.antt =====
-- A row that `remember` adds is sound, and so is the table with it.
use concierge_agent.Prelude.{
  ℕ, ◌≡◌, refl, sym, subst, String, Bool, true, false, not, ◌&&◌, Option, none, some, List, [], ◌∷◌,
  ◌++◌, IsIn, inl, inr, All, Bool-cases, if-both, ◌==◌, string_eq, nat_eq, contains, contains-IsIn,
  option_eq, is_nil, Option-cases,
}
use concierge_agent.Memory.Rows.{Uuid, Memory, Store, ids, kinds, scopes, sources}
use concierge_agent.Memory.Store.{
  Note, Invalid, MemoryWriteError, report, validate, raise_first, checks, is_guarded, refusal_of,
  lacks_provenance, admission, new_memory, remember, insert_memory, assert_again, Written, dangles,
  is_machine, gives_evidence,
}
use concierge_agent.Memory.Tombstones.{Env}
use concierge_agent.Memory.Sound.{IsRow, IsLinked, IsTable}

report-nil :
    (a b c : Bool) (x y z : Invalid)
    → is_nil (report a x ++ report b y ++ report c z) ≡ true
    → (a ≡ true) × (b ≡ true) × (c ≡ true)
report-nil true true true x y z h = (refl, refl, refl)
report-nil true true false x y z h = cc
report-nil true false c x y z h = cc
report-nil false b c x y z h = cc

pub validate-nil :
    (kind scope source : String)
    → is_nil (validate kind scope source) ≡ true
    → (contains kind kinds ≡ true)
      × (contains scope scopes ≡ true)
      × (contains source sources ≡ true)
unfolding validate
validate-nil kind scope source h = report-nil _ _ _ _ _ _ h

raise_first-none :
    (tests : List (Bool × MemoryWriteError))
    → raise_first tests ≡ none
    → All (λ t. t.0 ≡ false) tests
raise_first-none [] h = tt
raise_first-none ((true, e) ∷ rest) h = cc
raise_first-none ((false, e) ∷ rest) h = (refl, raise_first-none rest h)

pub not-true : (b : Bool) → not b ≡ true → b ≡ false
not-true true h = cc
not-true false h = refl

pub not-false : (b : Bool) → not b ≡ false → b ≡ true
not-false true h = refl
not-false false h = cc

-- What a note that is not refused has.
accepted :
    (n : Note)
    → refusal_of n ≡ none
    → (is_nil (validate n.kind n.scope n.source) ≡ true) × (lacks_provenance n ≡ false)
unfolding refusal_of
accepted n h =
    let (fine, (_, (known, _))) = raise_first-none (checks n) h in (not-false _ fine, known)

admission-ne : (qs : List String) (n : Note) → ((admission qs n).0 == "superseded") ≡ false
unfolding admission
admission-ne qs n = elim (Bool-cases (is_guarded n)) [
  | inl a ↦ rw a refl
  | inr a ↦ rw a (elim (Bool-cases (n.source == "inferred")) [
    | inl b ↦ rw b refl
    | inr b ↦ rw b (elim (Bool-cases (is_machine n.source && contains n.kind qs)) [
      | inl c ↦ rw c refl
      | inr c ↦ rw c refl
    ])
  ])
]

without_source : (a b c d : Bool) → (a && b && not (c && d)) ≡ false → (a && b && not d) ≡ false
without_source a b true d h = h
without_source true true false d h = cc
without_source true false false d h = refl
without_source false b false d h = refl

new_memory-IsRow : (env : Env) (n : Note) → refusal_of n ≡ none → IsRow (new_memory env n)
unfolding new_memory
new_memory-IsRow env n h =
    let (known, proven) = accepted n h in
    let (kind, scope, source) = validate-nil n.kind n.scope n.source known in
    record {
      kind = kind;
      scope = scope;
      source = source;
      stamp = rw (admission-ne env.quarantine_kinds n) refl;
      origin =
          without_source (is_machine n.source) (n.run_id == none) (n.source == "inferred")
            (gives_evidence n.payload) proven;
    }

dangles-IsIn :
    (ref : Option Uuid) (rows : List Memory) (i : ℕ)
    → dangles ref rows ≡ false
    → ref ≡ some i
    → IsIn i (ids rows)
dangles-IsIn ref rows i h e = contains-IsIn i (ids rows) (not-false _ (rw e at h))

-- Links survive when rows join the table.
pub IsLinked-cons :
    (row : Memory) (rows : List Memory) (m : Memory) → IsLinked rows m → IsLinked (row ∷ rows) m
IsLinked-cons row rows m h = record {
  older = λ i e. inr (h.older i e);
  newer = λ n e. let (r, at, name, back) = h.newer n e in (r, inr at, name, back);
}

add-IsLinked :
    (row : Memory) (rows : List Memory) (m : Memory)
    → dangles row.supersedes rows ≡ false
    → row.superseded_by ≡ none
    → ((m : Memory) → IsIn m rows → IsLinked rows m)
    → IsIn m (row ∷ rows)
    → IsLinked (row ∷ rows) m
add-IsLinked row rows m known free linked (inr at) = IsLinked-cons row rows m (linked m at)
add-IsLinked row rows m known free linked (inl same) =
    rw same (record {
      older = λ i e. inr (dangles-IsIn row.supersedes rows i known e);
      newer = λ n e. cc;
    })

insert_memory-IsTable :
    (env : Env) (row : Memory) (s : Store)
    → ¬ IsIn row.id (ids s.memories)
    → IsRow row
    → row.superseded_by ≡ none
    → IsTable s.memories
    → IsTable ((insert_memory env row s).1).memories
insert_memory-IsTable env row s fresh sound free t =
    if-both (λ (o : Written × Store). IsTable o.1.memories) (dangles row.supersedes s.memories) _ _
      (λ bad. t)
      (λ known. record {
        distinct = (fresh, t.distinct);
        each = (sound, t.each);
        linked = λ m at. add-IsLinked row s.memories m known free t.linked at;
      })

pub assert_again-memories :
    (env : Env) (n : Note) (s : Store) → (assert_again env n s).memories ≡ s.memories
unfolding assert_again
assert_again-memories env n s =
    if-both (λ (o : Store). o.memories ≡ s.memories) (n.source == "user_stated") _ s (λ a. refl)
      (λ b. refl)

pub remember-IsTable :
    (env : Env) (n : Note) (s : Store)
    → ¬ IsIn env.fresh (ids s.memories)
    → IsTable s.memories
    → IsTable ((remember env n s).1).memories
unfolding remember
remember-IsTable env n s fresh t = elim (Option-cases (refusal_of n)) [
  | inr (e, bad) ↦ rw (bad, remember) t
  | inl fine ↦
      let same = assert_again-memories env n s in
      rw (fine, remember)
        (insert_memory-IsTable env (new_memory env n) (assert_again env n s)
          (λ at. fresh (subst (λ rows. IsIn env.fresh (ids rows)) same at))
          (new_memory-IsRow env n fine) refl (subst IsTable (sym same) t))
]
