-- ===== src/Factory/Dag/Cycle.antt =====
-- The cycle search of `validate_workflow` (backend/app/factory/dag.py): `has_cycle`, and the `any`
-- over the known nodes. A set of successors is a list, in the order of the edges.
pub mod Walks
pub mod Search
pub mod Decides
use concierge_agent.Prelude.{
  ℕ, zero, suc, Bool, true, false, not, ◌||◌, Option, none, some, List, [], ◌∷◌, if◌then◌else◌,
  length, ◌==◌, nat_eq, contains,
}
use concierge_agent.Factory.Json.{Key, text, key_beq, key_eq}

abbrev pub start_key : Key
start_key = text "START"

abbrev pub end_key : Key
end_key = text "END"

-- The edges (source, target); `adjacency.get(n, ())` is `successors adjacency n`.
abbrev pub Adjacency : Type 0
Adjacency = List (Key × Key)

unfoldable pub successors : Adjacency → Key → List Key
successors [] n = []
successors ((src, dst) ∷ rest) n =
    let others = successors rest n in if src == n then dst ∷ others else others

-- `state`, the newest assignment first: 0 unvisited, 1 in the stack, 2 done.
abbrev pub State : Type 0
State = List (Key × ℕ)

-- state.get(n, 0)
unfoldable pub colour : State → Key → ℕ
colour [] n = 0
colour ((m, c) ∷ rest) n = let others = colour rest n in if m == n then c else others

-- What the search passes over: the two ends, and what is no node.
pub is_skipped : List Key → Key → Bool
is_skipped known n = (n == end_key || n == start_key) || not (contains n known)

-- The `for` loop of `has_cycle`, over the recursive call.
pub scan :
    (State → Key → Option (State × Bool)) → List Key → State → List Key → Option (State × Bool)
scan go known s [] = some (s, false)
scan go known s (n ∷ rest) = elim (is_skipped known n) [
  | true ↦ scan go known s rest
  | false ↦ elim (colour s n == 1) [
    | true ↦ some (s, true)
    | false ↦ elim (colour s n == 0) [
      | false ↦ scan go known s rest
      | true ↦ elim (go s n) [
        | none ↦ none
        | some (s', found) ↦ elim found [ true ↦ some (s', true) | false ↦ scan go known s' rest ]
      ]
    ]
  ]
]

abbrev pub finish : Key → Option (State × Bool) → Option (State × Bool)
finish n none = none
finish n (some (s, true)) = some (s, true)
finish n (some (s, false)) = some ((n, 2) ∷ s, false)

-- `has_cycle`, on the depth of the recursion that is left.
pub has_cycle : ℕ → Adjacency → List Key → State → Key → Option (State × Bool)
has_cycle zero adjacency known s n = none
has_cycle (suc depth) adjacency known s n =
    finish n (scan (has_cycle depth adjacency known) known ((n, 1) ∷ s) (successors adjacency n))

-- any(state.get(n, 0) == 0 and has_cycle(n) for n in nodes)
pub any_cycle : ℕ → Adjacency → List Key → State → List Key → Option Bool
any_cycle depth adjacency known s [] = some false
any_cycle depth adjacency known s (n ∷ rest) = elim (colour s n == 0) [
  | false ↦ any_cycle depth adjacency known s rest
  | true ↦ elim (has_cycle depth adjacency known s n) [
    | none ↦ none
    | some (s', found) ↦ elim found [
      | true ↦ some true
      | false ↦ any_cycle depth adjacency known s' rest
    ]
  ]
]

-- The depth is at most the number of nodes.
unfoldable pub contains_cycle : Adjacency → List Key → Option Bool
unfolding any_cycle has_cycle scan is_skipped successors colour key_beq
contains_cycle adjacency known = any_cycle (length known) adjacency known [] known
