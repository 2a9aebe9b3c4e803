-- ===== src/Memory/Rows.antt =====
-- The tables memories, memory_tombstones and memory_embeddings (backend/app/models/memory.py).
use concierge_agent.Prelude.{
  ℕ, String, Bool, Option, List, [], ◌∷◌, map, ◌==◌, string_eq, nat_eq, option_eq, find_where,
}
use concierge_agent.Prelude.Clock.{Instant}
use concierge_agent.Factory.Json.{Fields}
use concierge_agent.Memory.Words.{Text}

abbrev pub Uuid : Type 0
Uuid = ℕ

-- The key provider:model@dims.
abbrev pub ModelKey : Type 0
ModelKey = String × ℕ

-- A confidence is in millionths; the half life is in microseconds. The index fts, which
-- the database computes from the text, is left out.
pub record Memory : Type 0 where
  pub id : Uuid
  pub user_id : Option Uuid
  pub scope : String
  pub conversation_id : Option Uuid
  pub project_key : Option String
  pub kind : String
  pub text : Text
  pub payload : Option Fields
  pub entity_key : Option String
  pub importance : ℕ
  pub confidence : ℕ
  pub source : String
  pub status : String
  pub valid_from : Instant
  pub valid_to : Option Instant
  pub recorded_at : Instant
  pub superseded_at : Option Instant
  pub supersedes : Option Uuid
  pub superseded_by : Option Uuid
  pub run_id : Option Uuid
  pub step_id : Option Uuid
  pub last_accessed_at : Instant
  pub access_count : ℕ
  pub pinned : Bool
  pub half_life_days : Option ℕ
  pub review_note : Option String

pub record MemoryTombstone : Type 0 where
  pub id : Uuid
  pub user_id : Option Uuid
  pub scope : String
  pub project_key : Option String
  pub conversation_id : Option Uuid
  pub kind : String
  pub source : String
  pub confidence : ℕ
  pub importance : ℕ
  pub age : ℕ  -- age_days, in microseconds
  pub access_count : ℕ
  pub pinned : Bool
  pub text_hash : Text
  pub token_hashes : List Text
  pub embedding : Option (List ℕ)
  pub model_key : Option ModelKey
  pub forgotten_at : Instant
  pub suppressed_count : ℕ
  pub last_suppressed_at : Option Instant

-- A vector is a list of codes of its numbers. The column embedded_at, which nothing reads, is left out.
pub record MemoryEmbedding : Type 0 where
  pub ref_id : Uuid
  pub table_ref : String
  pub model_key : ModelKey
  pub embedding : List ℕ

pub record Store : Type 0 where
  pub memories : List Memory
  pub tombstones : List MemoryTombstone
  pub embeddings : List MemoryEmbedding

abbrev pub ids : List Memory → List Uuid
ids = map (λ m. m.id)

-- session.get(Memory, id)
abbrev pub get_memory : Uuid → List Memory → Option Memory
get_memory id rows = find_where (λ m. m.id == id) rows

abbrev pub kinds : List String
kinds = "fact" ∷ "preference" ∷ "entity" ∷ "relation" ∷ "instruction" ∷ []

abbrev pub scopes : List String
scopes = "global" ∷ "conversation" ∷ "project" ∷ []

abbrev pub sources : List String
sources = "extracted" ∷ "user_stated" ∷ "user_edited" ∷ "hitl_note" ∷ "inferred" ∷ []

abbrev pub machine_sources : List String
machine_sources = "extracted" ∷ "inferred" ∷ "hitl_note" ∷ []
