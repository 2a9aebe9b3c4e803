-- ===== src/Memory/Store.antt =====
-- The writes of the semantic memory (_validate, remember, supersede, forget and _store_embedding of
-- backend/app/memory/store.py). The links to entities, which a write never waits on, are left out.
use concierge_agent.Prelude.{
  ℕ, String, Bool, true, false, not, ◌&&◌, ◌||◌, Option, none, some, List, [], ◌∷◌, ◌++◌, map, min,
  max, if◌then◌else◌, ◌==◌, nat_eq, string_eq, option_eq, contains, any_where, is_nil,
}
use concierge_agent.Prelude.Clock.{Instant}
use concierge_agent.Factory.Json.{Fields, get_field, truthy}
use concierge_agent.Memory.Words.{Text, normalize}
use concierge_agent.Memory.Rows.{
  Uuid, ModelKey, Memory, MemoryEmbedding, Store, ids, kinds, scopes, sources, machine_sources,
}
use concierge_agent.Memory.Tombstones.{Env, unforget_by_assertion}

pub data Invalid : Type 0 where
  bad_kind bad_scope bad_source : Invalid

-- MemoryWriteError; `no_such_row` is the database's refusal of a foreign key.
pub data MemoryWriteError : Type 0 where
  invalid : List Invalid → MemoryWriteError
  project_key_missing provenance_missing conversation_missing empty_text : MemoryWriteError
  not_found already_superseded superseded_concurrently no_such_row : MemoryWriteError

pub data Written : Type 0 where
  refused : MemoryWriteError → Written
  wrote : Memory → Written

-- The keyword arguments of `remember`.
pub record Note : Type 0 where
  pub text : Text
  pub kind : String
  pub scope : String
  pub source : String
  pub conversation_id : Option Uuid
  pub payload : Option Fields
  pub entity_key : Option String
  pub importance : ℕ  -- below 1 clamps as 0 does
  pub confidence : ℕ
  pub valid_from : Option Instant
  pub run_id : Option Uuid
  pub step_id : Option Uuid
  pub supersedes : Option Uuid
  pub via_tool : Bool
  pub project_key : Option String
  pub user_id : Option Uuid

abbrev pub report : Bool → Invalid → List Invalid
report fine e = if fine then [] else e ∷ []

-- The errors of `_validate`; it raises unless there are none.
unfoldable pub validate : String → String → String → List Invalid
validate kind scope source =
    report (contains kind kinds) bad_kind
    ++ report (contains scope scopes) bad_scope
    ++ report (contains source sources) bad_source

abbrev pub or_else {ℓ} : {A : Type ℓ} → Option A → A → A
or_else none d = d
or_else (some a) d = a

-- Option that stands for `a if a is not None else b`
abbrev pub first_of {ℓ} : {A : Type ℓ} → Option A → Option A → Option A
first_of none b = b
first_of (some a) b = some a

abbrev pub gives_evidence : Option Fields → Bool
gives_evidence none = false
gives_evidence (some fields) = truthy (get_field fields "evidence")

abbrev pub is_machine : String → Bool
is_machine source = contains source machine_sources

abbrev lacks_project : Option String → Bool
lacks_project none = true
lacks_project (some key) = key == ""

abbrev pub lacks_provenance : Note → Bool
lacks_provenance n =
    is_machine n.source
    && n.run_id == none
    && not (n.source == "inferred" && gives_evidence n.payload)

-- A chain of `if ...: raise`.
abbrev pub raise_first : List (Bool × MemoryWriteError) → Option MemoryWriteError
raise_first [] = none
raise_first ((test, e) ∷ rest) = let later = raise_first rest in if test then some e else later

-- The tests of `remember`, in their order.
abbrev pub checks : Note → List (Bool × MemoryWriteError)
checks n =
    let errors = validate n.kind n.scope n.source in
    (not (is_nil errors), invalid errors)
    ∷ (n.scope == "project" && lacks_project n.project_key, project_key_missing)
    ∷ (lacks_provenance n, provenance_missing)
    ∷ (n.scope == "conversation" && n.conversation_id == none, conversation_missing)
    ∷ (is_nil (normalize n.text), empty_text)
    ∷ []

-- What `remember` raises, if anything.
unfoldable pub refusal_of : Note → Option MemoryWriteError
unfolding validate normalize
refusal_of n = raise_first (checks n)

-- A word that changes behaviour waits for a review.
abbrev pub is_guarded : Note → Bool
is_guarded n =
    n.kind == "instruction" && (contains n.source ("extracted" ∷ "inferred" ∷ []) || n.via_tool)

-- The status and the review note of a new row.
unfoldable pub admission : List String → Note → String × Option String
admission quarantine_kinds n =
    if is_guarded n
    then ("quarantined", none)
    else if n.source == "inferred"
    then ("quarantined", some "inferred by reflection — review before it is injected")
    else if is_machine n.source && contains n.kind quarantine_kinds
    then ("quarantined", some "extraction learner: kind routed through review")
    else ("active", none)

unfoldable pub new_memory : Env → Note → Memory
unfolding admission normalize
new_memory env n =
    let admitted = admission env.quarantine_kinds n in
    record {
      id = env.fresh;
      user_id = first_of n.user_id env.requester;
      scope = n.scope;
      conversation_id = n.conversation_id;
      project_key = if n.scope == "project" then n.project_key else none;
      kind = n.kind;
      text = normalize n.text;
      payload = n.payload;
      entity_key = n.entity_key;
      importance = max 1 (min 10 n.importance);
      confidence = min 1000000 n.confidence;
      source = n.source;
      status = admitted.0;
      valid_from = or_else n.valid_from env.db_now;
      valid_to = none;
      recorded_at = env.db_now;
      superseded_at = none;
      supersedes = n.supersedes;
      superseded_by = none;
      run_id = n.run_id;
      step_id = n.step_id;
      last_accessed_at = env.db_now;
      access_count = 0;
      pinned = false;
      half_life_days = none;
      review_note = admitted.1;
    }

embedding_dims : List ℕ
embedding_dims = 64 ∷ 256 ∷ 384 ∷ 512 ∷ 768 ∷ 1024 ∷ 1536 ∷ 3072 ∷ []

-- vector_column(key) is not None
has_column : ModelKey → Bool
unfolding embedding_dims
has_column key = contains key.1 embedding_dims

is_embedding_of : Uuid → ModelKey → MemoryEmbedding → Bool
is_embedding_of id key e =
    e.ref_id == id && e.table_ref == "memories" && e.model_key.0 == key.0 && e.model_key.1 == key.1

put_embedding : Uuid → ModelKey → List ℕ → List MemoryEmbedding → List MemoryEmbedding
unfolding is_embedding_of
put_embedding id key vec table =
    if any_where (is_embedding_of id key) table
    then map (λ e. if is_embedding_of id key e then record e { embedding = vec } else e) table
    else record { ref_id = id; table_ref = "memories"; model_key = key; embedding = vec } ∷ table

unfoldable pub store_embedding :
    Uuid → Option (ModelKey × List ℕ) → List MemoryEmbedding → List MemoryEmbedding
unfolding has_column put_embedding
store_embedding id none table = table
store_embedding id (some (key, vec)) table =
    if has_column key then put_embedding id key vec table else table

-- A foreign key to `memories` that no row answers.
abbrev pub dangles : Option Uuid → List Memory → Bool
dangles none rows = false
dangles (some id) rows = not (contains id (ids rows))

abbrev pub insert_memory : Env → Memory → Store → Written × Store
insert_memory env row store =
    if dangles row.supersedes store.memories then (refused no_such_row, store) else (
      wrote row,
      record store {
        memories = row ∷ store.memories;
        embeddings = store_embedding row.id env.embedded store.embeddings;
      },
    )

-- A user's word takes back what the user had forgotten.
unfoldable pub assert_again : Env → Note → Store → Store
unfolding normalize unforget_by_assertion
assert_again env n store =
    if n.source == "user_stated"
    then record store {
      tombstones =
          unforget_by_assertion env (normalize n.text) n.scope (first_of n.user_id env.requester)
            store.tombstones;
    }
    else store

unfoldable pub remember : Env → Note → Store → Written × Store
unfolding refusal_of new_memory assert_again store_embedding
remember env n store = elim (refusal_of n) [
  | some e ↦ (refused e, store)
  | none ↦ insert_memory env (new_memory env n) (assert_again env n store)
]
