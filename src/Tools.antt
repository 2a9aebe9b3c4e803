-- ===== src/Tools.antt =====
-- The registry of tools: one row per tool, and the fingerprints that show when a server changes
-- its schema or its description (backend/app/toolschema.py, backend/app/models/tool.py).
-- A column that no operation here reads or writes is left out.
pub mod Names
pub mod Ingest
pub mod Operator
mod Tests
use concierge_agent.Prelude.{
  ℕ, zero, suc, ◌+◌, String, Bool, true, false, not, ◌&&◌, ◌||◌, Option, none, some, if◌then◌else◌,
  ◌==◌, nat_eq, string_eq, option_eq,
}
use concierge_agent.Prelude.Clock.{Instant}
use concierge_agent.Ambient.Events.{Uuid}
use concierge_agent.Factory.Json.{Json}

-- What Python's library gives: the hex digest of a text under SHA-256, json.dumps with sorted keys and
-- no blanks, and str.strip.
pub record Python : Type 0 where
  pub sha256 : String → String
  pub dumps : Json → String
  pub strip : String → String

pub record Tool : Type 0 where
  pub id : Uuid
  pub name : String
  pub description : String
  pub source : String
  pub status : String
  pub deleted_at : Option Instant
  pub kind : String
  pub mcp_server_id : Option Uuid
  pub tool_name : String
  pub tool_key : String
  pub direct_exposure : Bool
  pub input_schema : Option Json
  pub ingest_state : Option String
  pub schema_hash : Option String
  pub schema_version : Option ℕ
  pub schema_changed_at : Option Instant
  pub description_hash : Option String
  pub description_source : String

abbrev pub quarantined : String
quarantined = "changed"

abbrev pub is_none {ℓ} : {A : Type ℓ} → Option A → Bool
is_none none = true
is_none (some a) = false

-- A version that is missing or 0 counts as 1.
abbrev version_or_one : Option ℕ → ℕ
version_or_one none = 1
version_or_one (some zero) = 1
version_or_one (some (suc n)) = suc n

-- An active row, or one that the server is bringing back.
abbrev pub in_service : Tool → Bool
in_service row =
    row.status == "active" || (row.ingest_state == some "missing" && is_none row.deleted_at)

module _ (python : Python) where
  open python use {sha256, dumps, strip}

  pub schema_fingerprint : Option Json → Option String
  schema_fingerprint none = none
  schema_fingerprint (some schema) = some (sha256 (dumps schema))

  pub text_fingerprint : String → Option String
  text_fingerprint text = some (sha256 (strip text))

  -- The schema is the one that the row carries, or the row carries none.
  abbrev pub is_known : Option Json → Tool → Bool
  is_known schema row = is_none row.schema_hash || schema_fingerprint schema == row.schema_hash

  abbrev pub put_same : Option Json → Tool → Tool
  put_same schema row = record row {
    input_schema = schema;
    schema_hash = schema_fingerprint schema;
    schema_version = elim row.schema_version [ none ↦ some 1 | some n ↦ some n ];
  }

  abbrev put_changed : Option Json → Instant → Tool → Tool
  put_changed schema now row = record row {
    input_schema = schema;
    schema_hash = schema_fingerprint schema;
    schema_version = some (suc (version_or_one row.schema_version));
    schema_changed_at = some now;
  }

  -- Whether this was a change, and the row.
  unfoldable pub apply_schema : Option Json → String → Instant → Tool → Bool × Tool
  apply_schema schema policy now row =
      if is_known schema row
      then (false, put_same schema row)
      else if policy == "quarantine" && in_service row
      then (
        true,
        record (put_changed schema now row) {
          status = "inactive";
          ingest_state = some quarantined;
        },
      )
      else (true, put_changed schema now row)

  unfoldable pub apply_description : String → String → Tool → Bool × Tool
  apply_description text source row =
      if source == "server" && row.description_source == "operator" then (false, row) else (
        not (is_none row.description_hash) && not (text_fingerprint text == row.description_hash),
        record row {
          description = text;
          description_hash = text_fingerprint text;
          description_source = source;
        },
      )

unfoldable pub acknowledge_schema : Tool → Tool
acknowledge_schema row =
    let read : Tool = record row { schema_changed_at = none } in
    if row.ingest_state == some quarantined
    then if row.status == "inactive" && is_none row.deleted_at
      then record read { ingest_state = some "present"; status = "active" }
      else record read { ingest_state = some "present" }
    else read
