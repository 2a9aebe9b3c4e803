-- ===== src/Orchestrator/Plan/Planner.antt =====
-- The planner: plan, validate, one repair (run_planner of backend/app/orchestrator/planner.py). What
-- the model answers is an input.
use concierge_agent.Prelude.{
  ℕ, zero, suc, ◌≡◌, ◌≢◌, sym, ap, ◌∙◌, inl, inr, String, Bool, Option, List, [], ◌∷◌, map,
  List-cases,
}
use concierge_agent.Orchestrator.Plan.{PlanEntry, Registry, PlanError, validate_plan}

pub record PlannerOutput : Type 0 where
  pub entries : List PlanEntry
  pub direct_answer : Option String
  pub no_confident_match : Bool

-- An answer of the model: prose in place of the tool call, or a call that does not parse (with the
-- text of the exception), or an output.
pub data Reply : Type 0 where
  prose unparsed : String → Reply
  parsed : PlannerOutput → Reply

pub data PlannerError : Type 0 where
  bad_schema : String → PlannerError
  bad_plan : PlanError → PlannerError

-- The errors that the next prompt asks to fix.
unfoldable pub reply_errors : Registry → ℕ → Reply → List PlannerError
reply_errors reg max_steps (prose problem) = bad_schema problem ∷ []
reply_errors reg max_steps (unparsed problem) = bad_schema problem ∷ []
reply_errors reg max_steps (parsed plan) =
    map (λ e. bad_plan e) (validate_plan reg max_steps plan.entries)

-- PlanFailure, or the plan.
pub data Planned : Type 0 where
  plan_failure : List PlannerError → Planned
  planned : PlannerOutput → Planned

-- What the model answers to the prompt with these errors, when so many attempts are left.
abbrev pub Model : Type 0
Model = ℕ → List PlannerError → Reply

-- The end of one attempt: the plan without errors, or what the next attempts give.
unfoldable pub settle_reply : Reply → List PlannerError → Planned → Planned
settle_reply (parsed plan) [] later = planned plan
settle_reply reply errors later = later

unfoldable pub attempts : Registry → ℕ → Model → ℕ → List PlannerError → Planned
unfolding reply_errors settle_reply
attempts reg max_steps model zero errors = plan_failure errors
attempts reg max_steps model (suc n) errors =
    let reply = model n errors in
    let found_now = reply_errors reg max_steps reply in
    let later = attempts reg max_steps model n found_now in settle_reply reply found_now later

unfoldable pub run_planner : Registry → ℕ → Model → Planned
unfolding attempts
run_planner reg max_steps model = attempts reg max_steps model 2 []

module _ (reg : Registry) (max_steps : ℕ) where
  -- A plan has no errors, and a failure has some.
  abbrev pub IsJudged : Planned → Type 0
  IsJudged (planned plan) = validate_plan reg max_steps plan.entries ≡ []
  IsJudged (plan_failure errors) = errors ≢ []

  errors-ne : (e : PlanError) (es : List PlanError) → map (λ x. bad_plan x) (e ∷ es) ≢ []
  errors-ne e es h = cc

  settle_reply-IsJudged :
      (reply : Reply) (later : Planned)
      → (reply_errors reg max_steps reply ≢ [] → IsJudged later)
      → IsJudged (settle_reply reply (reply_errors reg max_steps reply) later)
  unfolding reply_errors settle_reply
  settle_reply-IsJudged (prose problem) later h = h (λ e. cc)
  settle_reply-IsJudged (unparsed problem) later h = h (λ e. cc)
  settle_reply-IsJudged (parsed plan) later h =
      elim (List-cases (validate_plan reg max_steps plan.entries)) [
        | inl valid ↦ rw (valid, settle_reply) valid
        | inr (e, rest, some_errors) ↦
            rw (some_errors, settle_reply)
              (h
                (λ k. errors-ne e rest (sym (ap (λ es. map (λ x. bad_plan x) es) some_errors) ∙ k)))
      ]

  attempts-IsJudged :
      (model : Model) (n : ℕ) (errors : List PlannerError)
      → errors ≢ []
      → IsJudged (attempts reg max_steps model n errors)
  unfolding attempts
  attempts-IsJudged model zero errors h = h
  attempts-IsJudged model (suc n) errors h =
      settle_reply-IsJudged (model n errors) _
        (attempts-IsJudged model n (reply_errors reg max_steps (model n errors)))

  -- Whatever the model answers, the planner ends with a plan that passes the validation, or fails with
  -- at least one error.
  pub run_planner-IsJudged : (model : Model) → IsJudged (run_planner reg max_steps model)
  unfolding run_planner attempts
  run_planner-IsJudged model =
      settle_reply-IsJudged (model 1 []) _
        (attempts-IsJudged model 1 (reply_errors reg max_steps (model 1 [])))
