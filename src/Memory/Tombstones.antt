-- ===== src/Memory/Tombstones.antt =====
-- Forgotten facts (_matching_tombstones, check_suppressed, unforget and _unforget_by_assertion of
-- backend/app/memory/store.py).
use concierge_agent.Prelude.{
  ℕ, suc, String, Bool, true, false, not, ◌&&◌, ◌||◌, Option, none, some, List, [], ◌∷◌, map, leb,
  if◌then◌else◌, ◌==◌, nat_eq, string_eq, option_eq, list_eq, contains, any_where, select, is_nil,
}
use concierge_agent.Prelude.Clock.{Instant}
use concierge_agent.Memory.Words.{Text}
use concierge_agent.Memory.Tokens.{Unicode, normalized_hash, distinctive_token_hashes}
use concierge_agent.Memory.Rows.{Uuid, ModelKey, MemoryTombstone}

-- What a call meets. `nearest` stands for the embedding of a text and the search of pgvector: the
-- rows that are nearest to the text, three at most, each with its cosine in millionths.
pub record Env : Type 0 where
  pub unicode : Unicode
  pub now : Instant
  pub db_now : Instant
  pub fresh : Uuid
  pub requester : Option Uuid
  pub quarantine_kinds : List String
  pub forget_enabled : Bool
  pub forget_similarity : ℕ
  pub active_model_key : Option ModelKey
  pub nearest : Text → List MemoryTombstone → List (MemoryTombstone × ℕ)
  pub embedded : Option (ModelKey × List ℕ)

abbrev pub is_exact : Env → Text → String → Option Uuid → MemoryTombstone → Bool
is_exact env text scope user t =
    t.text_hash == normalized_hash env.unicode text && t.scope == scope && t.user_id == user

same_key : Option ModelKey → ModelKey → Bool
same_key none key = false
same_key (some (model, dims)) key = model == key.0 && dims == key.1

is_candidate : ModelKey → String → Option Uuid → MemoryTombstone → Bool
unfolding same_key
is_candidate key scope user t =
    not (t.embedding == none) && same_key t.model_key key && t.scope == scope && t.user_id == user

-- The gate of the cosine, and of a shared token below the threshold.
is_restated : Env → List Text → (MemoryTombstone × ℕ) → Bool
is_restated env tokens (t, cos) =
    leb env.forget_similarity cos
    || leb 700000 cos && any_where (λ h. contains h t.token_hashes) tokens

firsts : List (MemoryTombstone × ℕ) → List MemoryTombstone
firsts [] = []
firsts (hit ∷ rest) = hit.0 ∷ firsts rest

near_tombstones : Env → Text → String → Option Uuid → List MemoryTombstone → List MemoryTombstone
unfolding is_candidate is_restated firsts
near_tombstones env text scope user table = elim env.active_model_key [
  | none ↦ []
  | some key ↦
      let tokens = distinctive_token_hashes env.unicode text in
      firsts (
        select (is_restated env tokens)
          (env.nearest text (select (is_candidate key scope user) table)))
]

-- if exact: return exact
or_near : List MemoryTombstone → List MemoryTombstone → List MemoryTombstone
or_near [] near = near
or_near (t ∷ exact) near = t ∷ exact

unfoldable pub matching_tombstones :
    Env → Text → String → Option Uuid → List MemoryTombstone → List MemoryTombstone
unfolding or_near near_tombstones
matching_tombstones env text scope user table =
    or_near (select (is_exact env text scope user) table)
      (near_tombstones env text scope user table)

abbrev pub is_among : List MemoryTombstone → MemoryTombstone → Bool
is_among rows t = any_where (λ m. m.id == t.id) rows

abbrev pub count_suppression : Instant → List MemoryTombstone → MemoryTombstone → MemoryTombstone
count_suppression now hits t =
    if is_among hits t
    then record t { suppressed_count = suc t.suppressed_count; last_suppressed_at = some now }
    else t

unfoldable pub check_suppressed :
    Env → Text → String → Option Uuid → List MemoryTombstone → Bool × List MemoryTombstone
unfolding matching_tombstones
check_suppressed env text scope user table =
    let hits = matching_tombstones env text scope user table in
    if not env.forget_enabled
    then (false, table)
    else if is_nil hits
    then (false, table)
    else (true, map (count_suppression env.now hits) table)

unfoldable pub unforget : Uuid → List MemoryTombstone → Bool × List MemoryTombstone
unforget id table =
    if any_where (λ t. t.id == id) table
    then (true, select (λ t. not (t.id == id)) table)
    else (false, table)

unforget_each : List MemoryTombstone → List MemoryTombstone → List MemoryTombstone
unfolding unforget
unforget_each [] table = table
unforget_each (m ∷ rest) table = unforget_each rest ((unforget m.id table).1)

unfoldable pub unforget_by_assertion :
    Env → Text → String → Option Uuid → List MemoryTombstone → List MemoryTombstone
unfolding matching_tombstones unforget_each
unforget_by_assertion env text scope user table =
    if env.forget_enabled
    then unforget_each (matching_tombstones env text scope user table) table
    else table
