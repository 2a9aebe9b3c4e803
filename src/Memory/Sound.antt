-- ===== src/Memory/Sound.antt =====
-- What a sound table of memories (backend/app/models/memory.py) is. Touch, InPlace and Reviewed are
-- about the operations that change rows in place; Added, Replaced and Removed, with Maps, about those
-- that add and remove rows.
pub mod Touch
pub mod InPlace
pub mod Added
pub mod Maps
pub mod Replaced
pub mod Removed
pub mod Reviewed
use concierge_agent.Prelude.{
  ℕ, ◌≡◌, String, Bool, true, false, not, ◌&&◌, Option, none, some, List, ◌==◌, nat_eq, string_eq,
  option_eq, contains, IsIn, All, AreDistinctBy,
}
use concierge_agent.Prelude.Clock.{Instant}
use concierge_agent.Memory.Words.{Text}
use concierge_agent.Memory.Rows.{Memory, Uuid, ids, kinds, scopes, sources}
use concierge_agent.Memory.Store.{is_machine, gives_evidence}

-- The columns that nothing writes twice.
pub record Core : Type 0 where
  pub id : Uuid
  pub user_id : Option Uuid
  pub scope : String
  pub conversation_id : Option Uuid
  pub project_key : Option String
  pub kind : String
  pub text : Text
  pub entity_key : Option String
  pub confidence : ℕ
  pub source : String
  pub valid_from : Instant
  pub recorded_at : Instant
  pub supersedes : Option Uuid
  pub run_id : Option Uuid
  pub step_id : Option Uuid

abbrev pub core_of : Memory → Core
core_of m = record {
  id = m.id;
  user_id = m.user_id;
  scope = m.scope;
  conversation_id = m.conversation_id;
  project_key = m.project_key;
  kind = m.kind;
  text = m.text;
  entity_key = m.entity_key;
  confidence = m.confidence;
  source = m.source;
  valid_from = m.valid_from;
  recorded_at = m.recorded_at;
  supersedes = m.supersedes;
  run_id = m.run_id;
  step_id = m.step_id;
}

-- A row by itself: known words, a stamp exactly if it is superseded, and a machine's word has a run
-- or evidence.
pub record IsRow (m : Memory) : Type 0 where
  pub kind : contains m.kind kinds ≡ true
  pub scope : contains m.scope scopes ≡ true
  pub source : contains m.source sources ≡ true
  pub stamp : (m.superseded_at == none) ≡ not (m.status == "superseded")
  pub origin : (is_machine m.source && m.run_id == none && not (gives_evidence m.payload)) ≡ false

-- A row among the others: what it supersedes is there, and so is what supersedes it, which points
-- back.
pub record IsLinked (rows : List Memory) (m : Memory) : Type 0 where
  pub older : (i : ℕ) → m.supersedes ≡ some i → IsIn i (ids rows)
  pub newer :
      (n : ℕ)
      → m.superseded_by ≡ some n
      → (r : Memory) × IsIn r rows × (r.id ≡ n) × (r.supersedes ≡ some m.id)

pub record IsTable (rows : List Memory) : Type 0 where
  pub distinct : AreDistinctBy (λ m. m.id) rows
  pub each : All IsRow rows
  pub linked : (m : Memory) → IsIn m rows → IsLinked rows m
