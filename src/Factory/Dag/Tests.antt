-- ===== src/Factory/Dag/Tests.antt =====
-- Small workflows, and what `validate_workflow` says of them (backend/app/factory/dag.py).
use concierge_agent.Prelude.{◌↔◌, ◌⊎◌, IsIn, true, false, some, List, ◌≡◌, refl, String, [], ◌∷◌}
use concierge_agent.Factory.Json.{
  Key, text, Json, str, arr, obj, Items, nil, Fields, cons, end, field,
}
use concierge_agent.Factory.Dag.Errors.{has_a_cycle, ret, type_error}
use concierge_agent.Factory.Dag.Cycle.{Adjacency, contains_cycle}
use concierge_agent.Factory.Dag.Cycle.Walks.{Walk}
use concierge_agent.Factory.Dag.Cycle.Decides.{contains_cycle_decides}
use concierge_agent.Factory.Dag.Reach.{reachable_from_start}
use concierge_agent.Factory.Dag.Reach.Decides.{Route, reachable_from_start_decides}
use concierge_agent.Factory.Dag.Verdict.{IsAcceptable, validate_workflow_iff}
use concierge_agent.Factory.Dag.Validate.{validate_workflow}

abbrev shown : Json → String
shown v = "value"

abbrev skill_node : String → Json
skill_node nid =
    obj (field "id" (str nid) (field "type" (str "skill") (field "skill_id" (str "s1") end)))

abbrev edge : String → String → Json
edge src dst = obj (field "from" (str src) (field "to" (str dst) end))

abbrev workflow : Items → Items → Json
workflow nodes edges = obj (field "nodes" (arr nodes) (field "edges" (arr edges) end))

-- START → a → b → END
abbrev pub chain_nodes : Items
chain_nodes = cons (skill_node "a") (cons (skill_node "b") nil)

abbrev pub chain_edges : Items
chain_edges = cons (edge "START" "a") (cons (edge "a" "b") (cons (edge "b" "END") nil))

validate_workflow_chain :
    validate_workflow shown (workflow chain_nodes chain_edges) ("s1" ∷ []) ≡ ret []
unfolding validate_workflow
validate_workflow_chain = refl

validate_workflow_loop :
    validate_workflow shown (workflow chain_nodes (cons (edge "b" "a") chain_edges)) ("s1" ∷ [])
    ≡ ret (has_a_cycle ∷ [])
unfolding validate_workflow
validate_workflow_loop = refl

-- A node type that is a list is a TypeError, not a message.
validate_workflow_unhashable :
    validate_workflow shown
      (workflow (cons (obj (field "id" (str "a") (field "type" (arr nil) end))) nil) chain_edges)
      ("s1" ∷ [])
    ≡ type_error
unfolding validate_workflow
validate_workflow_unhashable = refl

abbrev chain_fields : Fields
chain_fields = field "nodes" (arr chain_nodes) (field "edges" (arr chain_edges) end)

validate_workflow_iff_example :
    (validate_workflow shown (obj chain_fields) ("s1" ∷ []) ≡ ret [])
    ↔ IsAcceptable shown ("s1" ∷ []) chain_fields
validate_workflow_iff_example = validate_workflow_iff shown ("s1" ∷ []) chain_fields

-- START → a → b → a, and b → END
abbrev loop : Adjacency
loop =
    (text "START", text "a")
    ∷ (text "a", text "b")
    ∷ (text "b", text "a")
    ∷ (text "b", text "END")
    ∷ []

abbrev loop_nodes : List Key
loop_nodes = text "a" ∷ text "b" ∷ []

contains_cycle_decides_example :
    (((k : Key) × Walk loop loop_nodes k k) × (contains_cycle loop loop_nodes ≡ some true))
    ⊎ (((k : Key) → ¬ (Walk loop loop_nodes k k)) × (contains_cycle loop loop_nodes ≡ some false))
contains_cycle_decides_example = contains_cycle_decides loop loop_nodes

reachable_from_start_decides_example :
    (reachable : List Key) × (reachable_from_start loop ≡ some reachable)
    × ((k : Key) → IsIn k reachable ↔ Route loop (text "START") k)
reachable_from_start_decides_example = reachable_from_start_decides loop
