-- ===== src/Ambient/Drain/Tests.antt =====
-- A pending event (backend/app/ambient/drain.py).
use concierge_agent.Prelude.{◌+◌, ◌≡◌, refl, inl, true, none, some, [], ◌∷◌, IsIn, arith}
use concierge_agent.Prelude.Clock.{seconds, hours}
use concierge_agent.Ambient.Drain.{Row, Draining, claim, drain_once}
use concierge_agent.Ambient.Drain.Claims.{claims_differ}

abbrev fresh : Row
fresh = record {
  id = 3;
  received_at = hours 12;
  verdict = none;
  verdict_reason = none;
  decision = none;
  processed_at = none;
}

abbrev firing : Draining
firing = record {
  is_registered = true;
  answer = λ row. some (
      some (record {
        verdict = "fired";
        reason = "due";
        decision = some (record { text = "{}"; fired_for = true });
      }));
  error = λ row. "";
  now = λ id. hours 13;
}

fresh_runs : (drain_once firing (hours 13) 20 (fresh ∷ [])).to_execute ≡ 3 ∷ []
unfolding drain_once
fresh_runs = refl

fresh_is_claimed : IsIn 3 (claim (hours 13) 20 (fresh ∷ [])).0
unfolding claim
fresh_is_claimed = inl refl

claims_differ_example :
    ¬ (IsIn 3 (claim (hours 13 + seconds 60) 20 (claim (hours 13) 20 (fresh ∷ [])).1).0)
claims_differ_example =
    claims_differ (hours 13) (hours 13 + seconds 60) 20 20 (fresh ∷ []) 3 (omega arith)
      fresh_is_claimed
