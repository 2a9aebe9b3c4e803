-- ===== src/Factory/Dag/Nodes.antt =====
-- The loop over the nodes of `validate_workflow` (backend/app/factory/dag.py).
pub mod Ends
use concierge_agent.Prelude.{
  ℕ, zero, suc, String, Bool, true, false, not, ◌&&◌, ◌||◌, Option, none, some, List, [], ◌∷◌, ◌++◌,
  ltb, leb, if◌then◌else◌, ◌==◌, nat_eq, string_eq, contains, length,
}
use concierge_agent.Prelude.Text.{codes, starts_with}
use concierge_agent.Factory.Json.{
  Json, null, bool, int, negative, str, arr, obj, Items, nil, cons, Fields, end, field, Key, text,
  key_of, key_eq, get_field, key_beq, truthy,
}
use concierge_agent.Factory.Dag.Errors.{
  DagError, node_needs_id, bad_type, skill_needs_id, hitl_needs_prompt, bad_questions,
  unresolved_skill, question_needs_id, question_ids_repeat, bad_kind, few_options, bad_options,
  repeated_options, reserved_end, reserved_shape, duplicate_id, when, Py, ret, type_error, ◌>>=◌,
}

-- str.isspace of one code point
is_space : ℕ → Bool
is_space c =
    (leb 9 c && leb c 13)
    || (leb 28 c && leb c 32)
    || contains c (0x85 ∷ 0xa0 ∷ 0x1680 ∷ 0x2028 ∷ 0x2029 ∷ 0x202f ∷ 0x205f ∷ 0x3000 ∷ [])
    || (leb 0x2000 c && leb c 0x200a)

all_space : List ℕ → Bool
all_space [] = true
all_space (c ∷ rest) = is_space c && all_space rest

-- not s.strip()
pub is_blank : String → Bool
unfolding is_space all_space
is_blank s = all_space (codes s)

-- The members of set(xs), and len(set(xs)) != len(xs).
distinct : List String → List String
distinct [] = []
distinct (x ∷ xs) = let rest = distinct xs in if contains x rest then rest else x ∷ rest

has_repeats : List String → Bool
unfolding distinct
has_repeats xs = not (length (distinct xs) == length xs)

count_items : Items → ℕ
count_items nil = 0
count_items (cons x xs) = suc (count_items xs)

-- The options if each is a text that is not blank.
option_texts : Items → Option (List String)
option_texts nil = some []
option_texts (cons (str s) rest) =
    if is_blank s then none else elim (option_texts rest) [ none ↦ none | some l ↦ some (s ∷ l) ]
option_texts (cons _ rest) = none

-- The branch of a question of kind "choice".
choice_errors : String → String → Json → List DagError
unfolding option_texts has_repeats count_items
choice_errors nid qid (arr options) =
    if ltb (count_items options) 2 then few_options nid qid ∷ [] else elim (option_texts options) [
      | none ↦ bad_options nid qid ∷ []
      | some l ↦ if has_repeats l then repeated_options nid qid ∷ [] else []
    ]
choice_errors nid qid _ = few_options nid qid ∷ []

-- `not in` on a set of texts, which hashes the value.
pub not_among : List Key → Json → Py Bool
not_among keys v = elim (key_of v) [ none ↦ type_error | some k ↦ ret (not (contains k keys)) ]

abbrev is_text : Json → String → Bool
is_text (str s) t = s == t
is_text _ t = false

pub record NodeScan : Type 0 where
  pub errors : List DagError
  pub ids : List String

prompt_errors : String → Json → List DagError
unfolding is_blank
prompt_errors nid (str p) = if is_blank p then hitl_needs_prompt nid ∷ [] else []
prompt_errors nid _ = hitl_needs_prompt nid ∷ []

skill_errors : List String → String → Json → List DagError
skill_errors active nid (str skill) =
    if skill == ""
    then skill_needs_id nid ∷ []
    else if contains skill active
    then []
    else unresolved_skill nid skill ∷ []
skill_errors active nid _ = skill_needs_id nid ∷ []

-- What follows the opening underscores: no line end, and two underscores last.
ends_dunder : List ℕ → Bool
ends_dunder [] = false
ends_dunder (c ∷ []) = false
ends_dunder (c ∷ d ∷ []) = c == b'_' && d == b'_'
ends_dunder (c ∷ rest) = not (c == 10) && ends_dunder rest

-- `$` also matches before one line end at the end of the text.
drop_line_end : List ℕ → List ℕ
drop_line_end [] = []
drop_line_end (c ∷ []) = if c == 10 then [] else c ∷ []
drop_line_end (c ∷ rest) = c ∷ drop_line_end rest

after_dunder : List ℕ → Bool
unfolding ends_dunder drop_line_end
after_dunder (c ∷ d ∷ rest) =
    c == b'_' && (d == b'_' && (ends_dunder rest || ends_dunder (drop_line_end rest)))
after_dunder _ = false

-- _RESERVED_ID_RE.match(nid) or nid.startswith(ROUTER_PREFIX)
is_reserved : String → Bool
unfolding after_dunder
is_reserved nid = after_dunder (codes nid) || starts_with (codes "__route__") (codes nid)

reserved_errors : String → List DagError
unfolding is_reserved
reserved_errors nid =
    if nid == "START" || nid == "END"
    then reserved_end nid ∷ []
    else if is_reserved nid
    then reserved_shape nid ∷ []
    else []

-- `show v` is Python's str(v) of a value that is no text.
module _ (show : Json → String) where
  py_str : Json → String
  py_str (str s) = s
  py_str v = show v

  -- A question's own errors, and its id if it has one.
  question_body : String → Fields → String → Py NodeScan
  unfolding when choice_errors not_among
  question_body nid q qid = do
    unknown ← not_among (text "approve" ∷ text "choice" ∷ text "text" ∷ []) (get_field q "kind")
    ret (record {
      errors =
          when unknown (bad_kind nid qid)
          ++ (if is_text (get_field q "kind") "choice"
              then choice_errors nid qid (get_field q "options")
              else []);
      ids = qid ∷ [];
    })

  check_question : String → Json → Py NodeScan
  unfolding truthy py_str question_body
  check_question nid (obj q) =
      if truthy (get_field q "id") && not (is_blank (py_str (get_field q "id")))
      then question_body nid q (py_str (get_field q "id"))
      else ret (record { errors = question_needs_id nid ∷ []; ids = [] })
  check_question nid _ = ret (record { errors = question_needs_id nid ∷ []; ids = [] })

  check_questions : String → Items → Py NodeScan
  check_questions nid nil = ret (record { errors = []; ids = [] })
  check_questions nid (cons q rest) = do
    one ← check_question nid q
    more ← check_questions nid rest
    ret (record { errors = one.errors ++ more.errors; ids = one.ids ++ more.ids })

  questions_errors : String → Json → Py (List DagError)
  unfolding when check_questions has_repeats check_question
  questions_errors nid null = ret []
  questions_errors nid (arr (cons q rest)) = do
    scan ← check_questions nid (cons q rest)
    ret (scan.errors ++ when (has_repeats scan.ids) (question_ids_repeat nid))
  questions_errors nid _ = ret (bad_questions nid ∷ [])

  hitl_errors : String → Fields → Py (List DagError)
  unfolding prompt_errors questions_errors
  hitl_errors nid n = do
    more ← questions_errors nid (get_field n "questions")
    ret (prompt_errors nid (get_field n "prompt") ++ more)

  -- What one node adds to the errors, and its id if it has one.
  node_body : List String → Fields → String → Py NodeScan
  unfolding not_among skill_errors hitl_errors reserved_errors
  node_body active n nid = do
    unknown ← not_among (text "skill" ∷ text "hitl" ∷ []) (get_field n "type")
    more ←
        (if unknown
          then ret (bad_type nid ∷ [])
          else if is_text (get_field n "type") "skill"
          then ret (skill_errors active nid (get_field n "skill_id"))
          else hitl_errors nid n)
    ret (record { errors = more ++ reserved_errors nid; ids = nid ∷ [] })

  node_with_id : List String → Fields → Json → Py NodeScan
  unfolding node_body
  node_with_id active n (str nid) =
      if nid == ""
      then ret (record { errors = node_needs_id ∷ []; ids = [] })
      else node_body active n nid
  node_with_id active n _ = ret (record { errors = node_needs_id ∷ []; ids = [] })

  check_node : List String → Json → Py NodeScan
  unfolding node_with_id
  check_node active (obj n) = node_with_id active n (get_field n "id")
  check_node active _ = ret (record { errors = node_needs_id ∷ []; ids = [] })

  -- The first loop: the errors, and `node_ids`.
  unfoldable pub check_nodes : List String → Items → Py NodeScan
  unfolding check_node get_field key_of key_beq
  check_nodes active nil = ret (record { errors = []; ids = [] })
  check_nodes active (cons n rest) = do
    one ← check_node active n
    more ← check_nodes active rest
    ret (record { errors = one.errors ++ more.errors; ids = one.ids ++ more.ids })

-- The loop over `node_ids` with the set `seen`.
unfoldable pub duplicate_errors : List String → List String → List DagError
unfolding when
duplicate_errors seen [] = []
duplicate_errors seen (nid ∷ rest) =
    when (contains nid seen) (duplicate_id nid) ++ duplicate_errors (nid ∷ seen) rest
