-- ===== src/Orchestrator/Plan/Rounds.antt =====
-- The rounds of a plan end (backend/app/orchestrator/graph_mode.py).
use mathlib.Core.Bool.{true≢false}
use concierge_agent.Prelude.{
  ℕ, zero, suc, ◌≤◌, ◌<◌, ◌≡◌, refl, sym, ap, ◌∙◌, subst, inl, inr, String, Bool, true, false, not,
  none, some, List, [], ◌∷◌, ◌++◌, arith, length, contains, count_where, select, IsIn, IsIn-select,
  Bool-cases, List-cases, ◌⊎◌, &&-true, string_eq, ==_refl,
}
use concierge_agent.Orchestrator.Plan.{
  PlanEntry, entry_ids, Run, is_pending, all_in, is_ready, take, dispatch_ready, dispatched,
  run_plan,
}

-- How many entries are pending.
abbrev pub open_count : Run → ℕ
open_count s = count_where (is_pending s) s.entries

contains-append :
    (id : String) (xs ys : List String) → contains id ys ≡ true → contains id (xs ++ ys) ≡ true
contains-append id [] ys h = h
contains-append id (x ∷ xs) ys h = ground (arith, contains-append id xs ys h)

-- A test that lets fewer items pass.
count_where-le :
    (p q : PlanEntry → Bool) (xs : List PlanEntry)
    → ((e : PlanEntry) → q e ≡ true → p e ≡ true)
    → count_where q xs ≤ count_where p xs
count_where-le p q [] f = omega arith
count_where-le p q (x ∷ xs) f = ground (arith, f x, count_where-le p q xs f)

count_where-lt :
    (p q : PlanEntry → Bool) (xs : List PlanEntry) (e : PlanEntry)
    → ((x : PlanEntry) → q x ≡ true → p x ≡ true)
    → IsIn e xs
    → p e ≡ true
    → q e ≡ false
    → count_where q xs < count_where p xs
count_where-lt p q [] e f at h k = absurd at
count_where-lt p q (x ∷ xs) e f (inl same) h k =
    let hx : p x ≡ true = subst (λ y. p y ≡ true) same h in
    let kx : q x ≡ false = subst (λ y. q y ≡ false) same k in
    rw (hx, kx) (omega (arith, count_where-le p q xs f))
count_where-lt p q (x ∷ xs) e f (inr at) h k = ground (arith, f x, count_where-lt p q xs e f at h k)

take-cons :
    (n : ℕ) (e : PlanEntry) (rest : List PlanEntry)
    → 1 ≤ n
    → (more : List PlanEntry) × (take n (e ∷ rest) ≡ e ∷ more)
take-cons zero e rest h = absurd (omega (arith, h))
take-cons (suc n) e rest h = (take n rest, refl)

-- Either no entry is ready, or a batch is sent that begins with one that is.
record IsBatch (s : Run) (e : PlanEntry) (more : List PlanEntry) : Type 0 where
  sent : dispatch_ready s ≡ some (e ∷ more)
  there : IsIn e s.entries
  ready : is_ready s e ≡ true

dispatch_ready-cases :
    (s : Run)
    → 1 ≤ s.max_parallel
    → ((dispatch_ready s ≡ none) × (select (is_ready s) s.entries ≡ []))
      ⊎ ((e : PlanEntry) × (more : List PlanEntry) × IsBatch s e more)
unfolding dispatch_ready
dispatch_ready-cases s room = elim (List-cases (select (is_ready s) s.entries)) [
  | inl nobody ↦ inl (rw (nobody, dispatch_ready) refl, nobody)
  | inr (e, rest, some_ready) ↦
      let (more, first) = take-cons s.max_parallel e rest room in
      let at : IsIn e (select (is_ready s) s.entries) = rw some_ready (inl refl) in
      let (there, ready) = IsIn-select (is_ready s) e s.entries at in
      inr (
        e,
        more,
        record {
          sent = rw (some_ready, dispatch_ready) (ap (λ l. some l) first);
          there = there;
          ready = ready;
        },
      )
]

dispatched-lt :
    (s : Run) (e : PlanEntry) (more : List PlanEntry)
    → IsBatch s e more
    → open_count (dispatched s (e ∷ more)) < open_count s
unfolding is_pending is_ready
dispatched-lt s e more b =
    let t = dispatched s (e ∷ more) in
    let pending_e : is_pending s e ≡ true =
      (&&-true (is_pending s e) (all_in s.outputs e.depends_on) b.ready).0 in
    let closed : is_pending t e ≡ false = rw (==_refl e.id) refl in
    count_where-lt (is_pending s) (is_pending t) s.entries e
      (λ x h. elim (Bool-cases (contains x.id s.outputs)) [
        | inl held ↦
            let still = contains-append x.id (entry_ids (e ∷ more)) s.outputs held in
            let (a, b) = &&-true (not (contains x.id t.outputs)) (contains x.id s.resolutions) h in
            absurd (true≢false (sym a ∙ ap (λ c. not c) still))
        | inr open_still ↦
            let (a, b) = &&-true (not (contains x.id t.outputs)) (contains x.id s.resolutions) h in
            rw (open_still, b) refl
      ])
      b.there pending_e closed

-- The end of the rounds: nothing is ready, and nothing that was done is lost.
pub record IsEnd (s t : Run) : Type 0 where
  pub entries : t.entries ≡ s.entries
  pub resolutions : t.resolutions ≡ s.resolutions
  pub kept : (id : String) → contains id s.outputs ≡ true → contains id t.outputs ≡ true
  pub idle : select (is_ready t) t.entries ≡ []

pub run_plan-ends :
    (n : ℕ) (s : Run)
    → 1 ≤ s.max_parallel
    → open_count s < n
    → (t : Run) × (run_plan n s ≡ some t) × IsEnd s t
unfolding run_plan
run_plan-ends zero s room h = absurd (omega (arith, h))
run_plan-ends (suc n) s room h = elim (dispatch_ready-cases s room) [
  | inl (over, nobody) ↦ (
    s,
    rw (over, run_plan) refl,
    record { entries = refl; resolutions = refl; kept = λ id k. k; idle = nobody },
  )
  | inr (e, more, b) ↦
      let s1 = dispatched s (e ∷ more) in
      let (t, runs, k) = run_plan-ends n s1 room (omega (arith, dispatched-lt s e more b, h)) in
      (
        t,
        rw (b.sent, run_plan) runs,
        record {
          entries = k.entries;
          resolutions = k.resolutions;
          kept = λ id d. k.kept id (contains-append id (entry_ids (e ∷ more)) s.outputs d);
          idle = k.idle;
        },
      )
]

pub count_where-length : (p : PlanEntry → Bool) (xs : List PlanEntry) → count_where p xs ≤ length xs
count_where-length p [] = omega arith
count_where-length p (x ∷ xs) = ground (arith, count_where-length p xs)
