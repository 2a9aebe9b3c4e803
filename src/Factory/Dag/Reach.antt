-- ===== src/Factory/Dag/Reach.antt =====
-- The last test of `validate_workflow` (backend/app/factory/dag.py): is END reachable from START?
-- The frontier is a stack, its top first.
pub mod Collect
pub mod Decides
use concierge_agent.Prelude.{
  ℕ, zero, suc, Bool, true, false, Option, none, some, List, [], ◌∷◌, length, contains,
}
use concierge_agent.Factory.Json.{Key, text, key_beq, key_eq}
use concierge_agent.Factory.Dag.Cycle.{Adjacency, successors, start_key, end_key}

pub record Frontier : Type 0 where
  pub reachable : List Key
  pub pending : List Key

-- The inner `for` loop.
pub collect : Frontier → List Key → Frontier
collect f [] = f
collect f (n ∷ rest) = elim (contains n f.reachable) [
  | true ↦ collect f rest
  | false ↦ collect (record { reachable = n ∷ f.reachable; pending = n ∷ f.pending }) rest
]

-- The `while` loop, on the rounds left; `none` when they are used up.
pub explore : ℕ → Adjacency → Frontier → Option (List Key)
explore zero adjacency f = elim f.pending [ [] ↦ some f.reachable | _ ∷ _ ↦ none ]
explore (suc rounds) adjacency f = elim f.pending [
  | [] ↦ some f.reachable
  | n ∷ rest ↦
      explore rounds adjacency (collect (record f { pending = rest }) (successors adjacency n))
]

-- A key is pushed at most once for each edge.
unfoldable pub reachable_from_start : Adjacency → Option (List Key)
unfolding explore collect successors key_beq
reachable_from_start adjacency =
    explore (suc (length adjacency)) adjacency (record { reachable = []; pending = start_key ∷ [] })
