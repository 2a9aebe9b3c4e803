-- ===== src/Tools/Ingest.antt =====
-- What a server's list of tools does to the table (McpManager._ingest of
-- backend/app/mcp/manager.py).
pub mod Rows
pub mod Service
pub mod Changed
pub mod Quarantine
pub mod Returned
use concierge_agent.Prelude.{
  ℕ, zero, suc, String, Bool, true, false, not, ◌&&◌, ◌||◌, Option, none, some, List, [], ◌∷◌, map,
  if◌then◌else◌, ◌==◌, nat_eq, string_eq, option_eq, contains, any_where, select,
}
use concierge_agent.Prelude.Clock.{Instant}
use concierge_agent.Prelude.Text.{concat}
use concierge_agent.Ambient.Events.{Uuid}
use concierge_agent.Factory.Json.{Json}
use concierge_agent.Tools.{
  Python, Tool, quarantined, is_none, schema_fingerprint, text_fingerprint, apply_schema,
  apply_description,
}
use concierge_agent.Tools.Names.{same_name}

-- A tool as the server lists it; a description that is missing is the empty text.
pub record Spec : Type 0 where
  pub name : String
  pub description : String
  pub input_schema : Option Json

-- The row of the server.
pub record Server : Type 0 where
  pub id : Uuid
  pub name : String
  pub source : String

-- What an ingest meets: the library, the server, the value of the setting `mcp_schema_change_policy`
-- (`none` if it cannot be read), the clock, and for the place of a tool in the list a fresh UUID and
-- six random digits.
pub record Env : Type 0 where
  pub python : Python
  pub server : Server
  pub setting : Option String
  pub now : Instant
  pub fresh : ℕ → Uuid
  pub digits : ℕ → String

unfoldable pub policy_of : Option String → String
policy_of none = "warn"
policy_of (some policy) = if policy == "" then "warn" else policy

abbrev pub of_server : Uuid → Tool → Bool
of_server server row = row.mcp_server_id == some server

-- existing.get(name)
abbrev pub is_row : Uuid → String → Tool → Bool
is_row server name row = of_server server row && row.tool_name == name

-- The server has the tool: only its own absence is undone, and a quarantine stays.
unfoldable pub come_back : Tool → Tool
come_back row =
    let row1 : Tool =
      if row.ingest_state == some "missing" && is_none row.deleted_at
      then record row { status = "active" }
      else row in
    if row1.ingest_state == some quarantined
    then row1
    else record row1 { ingest_state = some "present" }

-- What the listing of a known tool writes to its row.
unfoldable pub relist : Env → Spec → Tool → Tool
unfolding apply_schema apply_description policy_of come_back
relist env spec row =
    let described = (apply_description env.python spec.description "server" row).1 in
    come_back
      (apply_schema env.python spec.input_schema (policy_of env.setting) env.now described).1

-- What the absence of a known tool from the list writes to its row.
unfoldable pub unlist : Tool → Tool
unlist row =
    if row.status == "active"
    then record row { status = "inactive"; ingest_state = some "missing" }
    else if row.ingest_state == some "present"
    then record row { ingest_state = none }
    else row

-- The key of a new tool. A key that is taken is bound under a name that is taken.
unfoldable pub new_key : Env → ℕ → Spec → List String → String
unfolding same_name
new_key env i spec taken =
    let key = concat (env.server.name ∷ "." ∷ spec.name ∷ []) in
    if any_where (λ other. same_name other key) taken
    then concat (key ∷ "-" ∷ env.digits i ∷ [])
    else key

pub new_tool : Env → ℕ → Spec → String → Tool
new_tool env i spec key = record {
  id = env.fresh i;
  name = spec.name;
  description = spec.description;
  source = env.server.source;
  status = "active";
  deleted_at = none;
  kind = "mcp";
  mcp_server_id = some env.server.id;
  tool_name = spec.name;
  tool_key = key;
  direct_exposure = false;
  input_schema = spec.input_schema;
  ingest_state = some "present";
  schema_hash = schema_fingerprint env.python spec.input_schema;
  schema_version = some 1;
  schema_changed_at = none;
  description_hash = text_fingerprint env.python spec.description;
  description_source = "server";
}

-- ON CONFLICT (mcp_server_id, tool_name) DO UPDATE SET
unfoldable pub overwrite : Tool → Tool → Tool
overwrite row r = record r {
  input_schema = row.input_schema;
  ingest_state = some "present";
  schema_hash = row.schema_hash;
}

-- The insert, or the update of the row that it conflicts with.
unfoldable pub upsert : Tool → Uuid → List Tool → List Tool
unfolding overwrite
upsert row server table =
    if any_where (is_row server row.tool_name) table
    then map (λ (r : Tool). if is_row server row.tool_name r then overwrite row r else r) table
    else row ∷ table

-- The table, and the keys that are taken.
pub record Listing : Type 0 where
  pub table : List Tool
  pub taken : List String

-- One round of the loop over the list; `known` are the names of the rows at the start.
unfoldable pub list_tool : Env → List String → ℕ → Spec → Listing → Listing
unfolding relist new_key upsert
list_tool env known i spec s =
    if contains spec.name known
    then record s {
      table =
          map (λ (r : Tool). if is_row env.server.id spec.name r then relist env spec r else r)
            s.table;
    }
    else let key = new_key env i spec s.taken in
      record {
        table = upsert (new_tool env i spec key) env.server.id s.table;
        taken = key ∷ s.taken;
      }

unfoldable pub list_tools : Env → List String → ℕ → List Spec → Listing → Listing
unfolding list_tool
list_tools env known i [] s = s
list_tools env known i (spec ∷ rest) s =
    list_tools env known (suc i) rest (list_tool env known i spec s)

-- The loop over the rows that the list does not name.
unfoldable pub unlist_tools : Uuid → List String → List String → List Tool → List Tool
unfolding unlist
unlist_tools server known seen table =
    map
      (λ (r : Tool).
        if of_server server r && (contains r.tool_name known && not (contains r.tool_name seen))
        then unlist r
        else r)
      table

unfoldable pub ingest : Env → List Spec → List Tool → List Tool
unfolding list_tools unlist_tools
ingest env specs table =
    let known = map (λ (r : Tool). r.tool_name) (select (of_server env.server.id) table) in
    let listed =
      list_tools env known 0 specs
        (record { table = table; taken = map (λ (r : Tool). r.tool_key) table }) in
    unlist_tools env.server.id known (map (λ (x : Spec). x.name) specs) listed.table
