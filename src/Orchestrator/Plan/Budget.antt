-- ===== src/Orchestrator/Plan/Budget.antt =====
-- A plan of moderate size ends within the recursion limit (backend/app/orchestrator/runner.py).
use native.Mathlib.Nat.{suc-mul, mul-le-mul_right}
use concierge_agent.Prelude.{
  ◌∙◌, ◌+◌, ◌∷◌, subst, select, List-cases, ℕ, zero, suc, ◌*◌, ◌-◌, ◌≤◌, ◌≡◌, ap, inl, inr, String,
  none, some, List, [], arith, length, All, Option-cases,
}
use concierge_agent.Orchestrator.Plan.{
  PlanEntry, is_ready, take, Registry, Run, dispatch_ready, dispatched, run_plan, validate_plan,
}
use concierge_agent.Orchestrator.Plan.Graph.{recursion_limit, ended, run_from, run_graph}
use concierge_agent.Orchestrator.Plan.Complete.{IsOrdered, IsTaken, IsDone, run_plan-IsDone}

-- Two supersteps suffice for a round.
run_from-run_plan :
    (n left : ℕ) (s t : Run) → run_plan n s ≡ some t → 2 * n ≤ left → run_from left s ≡ ended t
unfolding run_plan run_from
run_from-run_plan zero left s t h room = absurd cc
run_from-run_plan (suc n) zero s t h room = absurd (omega (arith, room))
run_from-run_plan (suc n) (suc zero) s t h room = absurd (omega (arith, room))
run_from-run_plan (suc n) (suc (suc left)) s t h room = elim (Option-cases (dispatch_ready s)) [
  | inl over ↦ let k : some s ≡ some t = rw (over, run_plan) at h in rw (over, run_from) cc
  | inr (batch, sent) ↦
      rw (sent, run_from)
        (run_from-run_plan n left (dispatched s batch) t (rw (sent, run_plan) at h)
          (omega (arith, room)))
]

-- A plan that passes the validation, whose dependencies stand in an order and that has at most 47
-- entries is run to its end within the recursion limit, and each entry that was resolved, or whose
-- failure is an output, then has an output, if one entry at least may be sent at once and LangGraph
-- grants as many supersteps as the limit says, or one fewer.
pub run_graph-IsDone :
    (granted : ℕ → ℕ) (reg : Registry) (max_steps : ℕ) (s : Run) (rank : String → ℕ)
    → ((limit : ℕ) → limit ≤ suc (granted limit))
    → validate_plan reg max_steps s.entries ≡ []
    → All (IsOrdered rank) s.entries
    → All (IsTaken s) s.entries
    → 1 ≤ s.max_parallel
    → length s.entries ≤ 47
    → (t : Run) × (run_graph granted s ≡ ended t) × All (IsDone t) s.entries
unfolding run_graph
run_graph-IsDone granted reg max_steps s rank grants valid ordered taken room small =
    let (t, runs, done) = run_plan-IsDone reg max_steps s rank valid ordered taken room in
    (
      t,
      run_from-run_plan (suc (length s.entries)) (granted recursion_limit - 2) s t runs
          (omega (arith, small, grants recursion_limit)),
      done,
    )

length-take : (n : ℕ) (es : List PlanEntry) → length (take n es) ≤ n
length-take zero es = omega arith
length-take (suc n) [] = omega arith
length-take (suc n) (e ∷ rest) = omega (arith, length-take n rest)

length-dispatched :
    (s : Run) (batch : List PlanEntry)
    → length (dispatched s batch).outputs ≡ length batch + length s.outputs
length-dispatched s [] = omega arith
length-dispatched s (e ∷ rest) = omega (arith, length-dispatched s rest)

dispatch_ready-le :
    (s : Run) (batch : List PlanEntry)
    → dispatch_ready s ≡ some batch
    → length batch ≤ s.max_parallel
unfolding dispatch_ready
dispatch_ready-le s batch h = elim (List-cases (select (is_ready s) s.entries)) [
  | inl nobody ↦ absurd (let k : none ≡ some batch = rw (nobody, dispatch_ready) at h in cc)
  | inr (e, rest, some_ready) ↦
      let k : some (take s.max_parallel (e ∷ rest)) ≡ some batch =
        rw (some_ready, dispatch_ready) at h in
      let same : take s.max_parallel (e ∷ rest) ≡ batch = cc in
      subst (λ b. length b ≤ s.max_parallel) same (length-take s.max_parallel (e ∷ rest))
]

run_from-le :
    (left : ℕ) (s t : Run)
    → run_from left s ≡ ended t
    → 2 * length t.outputs + 2 * s.max_parallel ≤ 2 * length s.outputs + left * s.max_parallel
unfolding run_from
run_from-le zero s t h = absurd cc
run_from-le (suc zero) s t h = absurd cc
run_from-le (suc (suc left)) s t h =
    let places = s.max_parallel in
    let two : suc (suc left) * places ≡ left * places + places + places =
      suc-mul (suc left) places ∙ ap (λ n. n + places) (suc-mul left places) in
    elim (Option-cases (dispatch_ready s)) [
      | inl over ↦
          let k : ended s ≡ ended t = rw (over, run_from) at h in
          let same : s ≡ t = cc in omega (arith, two, ap (λ (r : Run). length r.outputs) same)
      | inr (batch, sent) ↦
          let ih = run_from-le left (dispatched s batch) t (rw (sent, run_from) at h) in
          omega (arith, two, ih, dispatch_ready-le s batch sent, length-dispatched s batch)
    ]

-- A run of the graph that ends within the recursion limit has given an output to at most 48 entries
-- for each that may be sent at once, if LangGraph grants no more supersteps than the limit says.
pub run_graph_bounded :
    (granted : ℕ → ℕ) (s t : Run)
    → ((limit : ℕ) → granted limit ≤ limit)
    → run_graph granted s ≡ ended t
    → length t.outputs ≤ length s.outputs + 48 * s.max_parallel
unfolding run_graph
run_graph_bounded granted s t grants h =
    let left = granted recursion_limit - 2 in
    let most : left ≤ 98 = omega (arith, grants recursion_limit) in
    omega (arith, run_from-le left s t h, mul-le-mul_right s.max_parallel most)
