-- ===== src/Memory/Changes.antt =====
-- How a memory is replaced, retired and erased (supersede, forget, tombstone_forget and hard_delete
-- of backend/app/memory/store.py; patch of backend/app/api/memories.py).
use concierge_agent.Prelude.{
  ℕ, ◌-◌, String, Bool, true, false, not, ◌&&◌, Option, none, some, List, [], ◌∷◌, map,
  if◌then◌else◌, ◌==◌, nat_eq, string_eq, option_eq, list_eq, contains, any_where, find_where,
  select, is_nil,
}
use concierge_agent.Prelude.Clock.{Instant}
use concierge_agent.Factory.Json.{Fields}
use concierge_agent.Memory.Words.{Text, normalize}
use concierge_agent.Memory.Tokens.{normalized_hash, distinctive_token_hashes}
use concierge_agent.Memory.Rows.{
  Uuid, ModelKey, Memory, MemoryTombstone, MemoryEmbedding, Store, get_memory,
}
use concierge_agent.Memory.Tombstones.{Env}
use concierge_agent.Memory.Store.{
  invalid, provenance_missing, not_found, already_superseded, superseded_concurrently, Written,
  refused, wrote, validate, or_else, first_of, is_machine, store_embedding,
}

-- The keyword arguments of `supersede`.
pub record Revision : Type 0 where
  pub text : Text
  pub source : String
  pub run_id : Option Uuid
  pub step_id : Option Uuid
  pub payload : Option Fields
  pub importance : Option ℕ
  pub confidence : Option ℕ
  pub valid_from : Option Instant

unfoldable pub replacement : Env → Revision → Memory → Memory
unfolding normalize
replacement env r old = record {
  id = env.fresh;
  user_id = none;
  scope = old.scope;
  conversation_id = old.conversation_id;
  project_key = none;
  kind = old.kind;
  text = normalize r.text;
  payload = first_of r.payload old.payload;
  entity_key = old.entity_key;
  importance = or_else r.importance old.importance;
  confidence = or_else r.confidence old.confidence;
  source = r.source;
  status = if contains old.status ("active" ∷ "expired" ∷ []) then "active" else old.status;
  valid_from = or_else r.valid_from env.now;
  valid_to = none;
  recorded_at = env.db_now;
  superseded_at = none;
  supersedes = some old.id;
  superseded_by = none;
  run_id = r.run_id;
  step_id = r.step_id;
  last_accessed_at = env.db_now;
  access_count = 0;
  pinned = old.pinned;
  half_life_days = old.half_life_days;
  review_note = none;
}

-- WHERE id = old.id AND superseded_at IS NULL
abbrev pub is_open : Uuid → Memory → Bool
is_open id m = m.id == id && m.superseded_at == none

abbrev pub close : Uuid → Uuid → Instant → Instant → Memory → Memory
close id by now until m =
    if is_open id m
    then record m {
      superseded_at = some now;
      superseded_by = some by;
      valid_to = some until;
      status = "superseded";
    }
    else m

-- The row that a transaction reads, `seen`, is older than the table that its update meets.
unfoldable pub replace_seen : Env → Revision → Memory → Store → Written × Store
unfolding replacement validate store_embedding
replace_seen env r seen store =
    let errors = validate seen.kind seen.scope r.source in
    let row = replacement env r seen in
    if not (seen.superseded_at == none)
    then (refused already_superseded, store)
    else if not (is_nil errors)
    then (refused (invalid errors), store)
    else if is_machine r.source && r.run_id == none
    then (refused provenance_missing, store)
    else if not (any_where (is_open seen.id) store.memories)
    then (refused superseded_concurrently, store)
    else (
      wrote row,
      record store {
        memories = row ∷ map (close seen.id row.id env.now row.valid_from) store.memories;
        embeddings = store_embedding row.id env.embedded store.embeddings;
      },
    )

unfoldable pub supersede : Env → Revision → Option Memory → Store → Written × Store
unfolding replace_seen
supersede env r none store = (refused not_found, store)
supersede env r (some seen) store = replace_seen env r seen store

abbrev pub is_retirable : Uuid → Memory → Bool
is_retirable id m = m.id == id && contains m.status ("active" ∷ "quarantined" ∷ [])

abbrev pub retire : Uuid → Instant → Memory → Memory
retire id now m =
    if is_retirable id m then record m { status = "expired"; valid_to = some now } else m

unfoldable pub forget : Uuid → Instant → Store → Bool × Store
forget id now store =
    if any_where (is_retirable id) store.memories
    then (true, record store { memories = map (retire id now) store.memories })
    else (false, store)

-- The references to the row that goes are cleared.
abbrev pub clear : Uuid → Option Uuid → Option Uuid
clear id ref = if ref == some id then none else ref

abbrev pub unlink : Uuid → Memory → Memory
unlink id m = record m {
  supersedes = clear id m.supersedes;
  superseded_by = clear id m.superseded_by;
}

abbrev pub is_vector_of : Uuid → MemoryEmbedding → Bool
is_vector_of id e = e.ref_id == id && e.table_ref == "memories"

abbrev pub erase_row : Uuid → List Memory → List Memory
erase_row id rows = map (unlink id) (select (λ m. not (m.id == id)) rows)

unfoldable pub hard_delete : Uuid → Store → Bool × Store
hard_delete id store =
    if any_where (λ m. m.id == id) store.memories
    then (
      true,
      record store {
        memories = erase_row id store.memories;
        embeddings = select (λ e. not (is_vector_of id e)) store.embeddings;
      },
    )
    else (false, store)

-- session.get(MemoryEmbedding, (id, "memories", key))
stored_vector : Uuid → Option ModelKey → List MemoryEmbedding → Option MemoryEmbedding
stored_vector id none table = none
stored_vector id (some key) table =
    find_where (λ e. is_vector_of id e && e.model_key.0 == key.0 && e.model_key.1 == key.1) table

abbrev vector_of : Option MemoryEmbedding → Option (List ℕ)
vector_of none = none
vector_of (some e) = some e.embedding

abbrev key_of : Option MemoryEmbedding → Option ModelKey
key_of none = none
key_of (some e) = some e.model_key

unfoldable pub tombstone_of : Env → Memory → Option MemoryEmbedding → MemoryTombstone
tombstone_of env row vector = record {
  id = env.fresh;
  user_id = row.user_id;
  scope = row.scope;
  project_key = row.project_key;
  conversation_id = row.conversation_id;
  kind = row.kind;
  source = row.source;
  confidence = row.confidence;
  importance = row.importance;
  age = env.now - row.recorded_at;
  access_count = row.access_count;
  pinned = row.pinned;
  text_hash = normalized_hash env.unicode row.text;
  token_hashes = distinctive_token_hashes env.unicode row.text;
  embedding = vector_of vector;
  model_key = key_of vector;
  forgotten_at = env.db_now;
  suppressed_count = 0;
  last_suppressed_at = none;
}

unfoldable pub tombstone_forget : Env → Uuid → Store → Bool × Store
unfolding tombstone_of stored_vector hard_delete
tombstone_forget env id store = elim (get_memory id store.memories) [
  | none ↦ (false, store)
  | some row ↦
      let vector = stored_vector id env.active_model_key store.embeddings in
      hard_delete id (record store { tombstones = tombstone_of env row vector ∷ store.tombstones })
]
