-- ===== src/Factory/Dag/Nodes/Ends.antt =====
-- The ways in which the loop over the nodes ends (backend/app/factory/dag.py).
use concierge_agent.Prelude.{String, List, [], ◌∷◌, ◌==◌, string_eq, arith}
use concierge_agent.Factory.Json.{
  Json, null, str, arr, obj, Items, nil, cons, Fields, Key, get_field,
}
use concierge_agent.Factory.Dag.Errors.{Ends, ret, node_needs_id, if-Ends, ret-Ends, ends_rules}
use concierge_agent.Factory.Dag.Nodes.{
  not_among, check_question, check_questions, questions_errors, node_body, node_with_id, check_node,
  check_nodes,
}

not_among-Ends : (keys : List Key) (v : Json) → Ends (not_among keys v)
unfolding not_among
not_among-Ends keys v = record { apply = λ h. ground arith }

module _ (show : Json → String) where
  check_question-Ends : (nid : String) (q : Json) → Ends (check_question show nid q)
  unfolding check_question
  check_question-Ends nid (obj q) = search (ends_rules, not_among-Ends)
  check_question-Ends nid _ = ret-Ends _

  check_questions-Ends : (nid : String) (qs : Items) → Ends (check_questions show nid qs)
  unfolding check_questions
  check_questions-Ends nid nil = ret-Ends _
  check_questions-Ends nid (cons q rest) =
      search (ends_rules, check_question-Ends nid q, check_questions-Ends nid rest)

  questions_errors-Ends : (nid : String) (v : Json) → Ends (questions_errors show nid v)
  unfolding questions_errors
  questions_errors-Ends nid (arr (cons q rest)) =
      search (ends_rules, check_questions-Ends nid (cons q rest))
  questions_errors-Ends nid (arr nil) = ret-Ends _
  questions_errors-Ends nid null = ret-Ends _
  questions_errors-Ends nid _ = ret-Ends _

  node_body-Ends :
      (active : List String) (n : Fields) (nid : String) → Ends (node_body show active n nid)
  unfolding node_body
  node_body-Ends active n nid = search (ends_rules, not_among-Ends, questions_errors-Ends) depth 8

  node_with_id-Ends :
      (active : List String) (n : Fields) (v : Json) → Ends (node_with_id show active n v)
  unfolding node_with_id
  node_with_id-Ends active n (str nid) =
      if-Ends (nid == "") (ret (record { errors = node_needs_id ∷ []; ids = [] }))
        (node_body show active n nid) (ret-Ends _) (node_body-Ends active n nid)
  node_with_id-Ends active n _ = ret-Ends _

  check_node-Ends : (active : List String) (v : Json) → Ends (check_node show active v)
  unfolding check_node
  check_node-Ends active (obj n) = node_with_id-Ends active n (get_field n "id")
  check_node-Ends active _ = ret-Ends _

  pub check_nodes-Ends : (active : List String) (xs : Items) → Ends (check_nodes show active xs)
  unfolding check_nodes
  check_nodes-Ends active nil = ret-Ends _
  check_nodes-Ends active (cons n rest) =
      search (ends_rules, check_node-Ends active n, check_nodes-Ends active rest)
