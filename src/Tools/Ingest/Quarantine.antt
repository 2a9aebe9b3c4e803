-- ===== src/Tools/Ingest/Quarantine.antt =====
-- A changed schema under the policy 'quarantine' (backend/app/mcp/manager.py,
-- backend/app/toolschema.py).
use mathlib.Core.Bool.{true≢false}
use concierge_agent.Prelude.{
  ℕ, suc, ◌≡◌, ◌≢◌, refl, sym, ap, ◌∙◌, subst, inl, inr, true, false, Option, none, some, List, [],
  ◌∷◌, map, String, ◌==◌, nat_eq, string_eq, option_eq, contains, select, All, IsIn, AreDistinctBy,
  same_item, Bool-cases, ==_eq, ==_ne, ==_refl, IsIn-map_key, select-IsIn, All-of_IsIn, &&-true,
  IsIn-contains,
}
use concierge_agent.Ambient.Events.{Uuid}
use concierge_agent.Tools.{Tool, is_none, schema_fingerprint}
use concierge_agent.Tools.Ingest.{
  Env, Spec, policy_of, of_server, is_row, relist, Listing, list_tool, list_tools, ingest,
}
use concierge_agent.Tools.Ingest.Rows.{Each, list_tool-Each, IsSameTool, relist-IsSameTool}
use concierge_agent.Tools.Ingest.Service.{
  IsOff, IsFreshOf, list_tools-IsOff, unlist_tools-IsOff, ingests, ingests-IsOff,
}
use concierge_agent.Tools.Ingest.Changed.{relist-schema_hash, relist-quarantines}

some-is_none : (o : Option String) → o ≢ none → is_none o ≡ false
some-is_none none h = absurd (h refl)
some-is_none (some s) h = refl

-- The row of this server under this name, with this fingerprint.
record IsCarrying (server : Uuid) (name : String) (hash : Option String) (r : Tool) : Type 0 where
  row : is_row server name r ≡ true
  hash_is : r.schema_hash ≡ hash

-- Names of rows.
is_row-name :
    (server : Uuid) (name other : String) (r : Tool)
    → is_row server name r ≡ true
    → is_row server other r ≡ true
    → other ≡ name
is_row-name server name other r h k =
    sym (==_eq r.tool_name other (&&-true (of_server server r) (r.tool_name == other) k).1)
    ∙ ==_eq r.tool_name name (&&-true (of_server server r) (r.tool_name == name) h).1

is_row-same :
    (server : Uuid) (name : String) (r q : Tool)
    → IsSameTool r q
    → is_row server name q ≡ is_row server name r
is_row-same server name r q h = rw (h.server, h.tool_name) refl

module _ (i : Uuid) (env : Env) (new : IsFreshOf i env) (name : String) (hash : Option String)
    (policy : (policy_of env.setting == "quarantine") ≡ true) (carried : is_none hash ≡ false) where
  abbrev Carrying : Tool → Type 0
  Carrying r = IsCarrying env.server.id name hash r

  -- A round over a tool with another schema.
  list_tool-quarantines :
      (known : List String) (n : ℕ) (spec : Spec) (s : Listing)
      → contains name known ≡ true
      → spec.name ≡ name
      → (schema_fingerprint env.python spec.input_schema == hash) ≡ false
      → Each Carrying i s.table
      → Each IsOff i (list_tool env known n spec s).table
  list_tool-quarantines known n spec s listed named changed h =
      list_tool-Each Carrying IsOff i env known n spec s (new n)
        (λ r e c.
          relist-quarantines env spec r policy (ap (λ o. is_none o) c.hash_is ∙ carried)
            (ap (λ o. schema_fingerprint env.python spec.input_schema == o) c.hash_is ∙ changed))
        (λ r row e f c. absurd (true≢false (sym (ap (λ x. contains x known) named ∙ listed) ∙ e)))
        (λ r e c. absurd (true≢false (sym (ap (λ x. is_row env.server.id x r) named ∙ c.row) ∙ e)))
        h

  -- A round over a tool with this schema, or of another name.
  list_tool-Carrying :
      (known : List String) (n : ℕ) (spec : Spec) (s : Listing)
      → contains name known ≡ true
      → (spec.name ≡ name → schema_fingerprint env.python spec.input_schema ≡ hash)
      → Each Carrying i s.table
      → Each Carrying i (list_tool env known n spec s).table
  list_tool-Carrying known n spec s listed kept h =
      list_tool-Each Carrying Carrying i env known n spec s (new n)
        (λ r e c. record {
          row =
              is_row-same env.server.id name r (relist env spec r) (relist-IsSameTool env spec r)
              ∙ c.row;
          hash_is =
              relist-schema_hash env spec r
              ∙ kept (is_row-name env.server.id name spec.name r c.row e);
        })
        (λ r row e f c. absurd (
          true≢false (
            sym (
              ap (λ x. contains x known) (is_row-name env.server.id name spec.name r c.row f)
              ∙ listed)
            ∙ e)))
        (λ r e c. c) h

  list_tools-quarantines :
      (known : List String) (n : ℕ) (specs : List Spec) (bad : Spec) (s : Listing)
      → contains name known ≡ true
      → IsIn bad specs
      → bad.name ≡ name
      → schema_fingerprint env.python bad.input_schema ≢ hash
      → Each Carrying i s.table
      → Each IsOff i (list_tools env known n specs s).table
  unfolding list_tools
  list_tools-quarantines known n [] bad s listed at named changed h = absurd at
  list_tools-quarantines known n (spec ∷ rest) bad s listed at named changed h =
      let print = schema_fingerprint env.python spec.input_schema in
      let later : (spec.name ≡ name → print ≡ hash)
          → Each IsOff i (list_tools env known n (spec ∷ rest) s).table =
        λ kept. elim at [
          | inl e ↦ absurd (
              changed (
                ap (λ (x : Spec). schema_fingerprint env.python x.input_schema) e
                ∙ kept (sym (ap (λ (x : Spec). x.name) e) ∙ named)))
          | inr more ↦
              list_tools-quarantines known (suc n) rest bad (list_tool env known n spec s) listed
                more named changed (list_tool-Carrying known n spec s listed kept h)
        ] in
      elim (Bool-cases (spec.name == name)) [
        | inr other ↦ later (λ e. absurd (==_ne spec.name name other e))
        | inl same ↦ elim (Bool-cases (print == hash)) [
          | inl equal ↦ later (λ e. ==_eq print hash equal)
          | inr differ ↦
              list_tools-IsOff i env new known (suc n) rest (list_tool env known n spec s)
                (list_tool-quarantines known n spec s listed (==_eq spec.name name same) differ h)
        ]
      ]

-- Under the policy 'quarantine', a tool that the server lists with another schema than the row
-- carries is out of service after the ingest, and after whatever ingests follow, of whichever servers
-- and under whatever policies, if no two rows share an id and no fresh id is its id.
pub ingest-quarantines :
    (env : Env) (specs : List Spec) (table : List Tool) (r : Tool) (bad : Spec)
    (later : List (Env × List Spec))
    → policy_of env.setting ≡ "quarantine"
    → AreDistinctBy (λ (x : Tool). x.id) table
    → IsIn r table
    → r.mcp_server_id ≡ some env.server.id
    → r.schema_hash ≢ none
    → IsIn bad specs
    → bad.name ≡ r.tool_name
    → schema_fingerprint env.python bad.input_schema ≢ r.schema_hash
    → IsFreshOf r.id env
    → All (λ (p : Env × List Spec). IsFreshOf r.id p.0) later
    → Each IsOff r.id (ingests later (ingest env specs table))
unfolding ingest
ingest-quarantines env specs table r bad later policy unique at ours carried listed named changed
      new news =
    let known = map (λ (x : Tool). x.tool_name) (select (of_server env.server.id) table) in
    let mine : of_server env.server.id r ≡ true = rw ours (==_refl env.server.id) in
    let hit : is_row env.server.id r.tool_name r ≡ true = rw (mine, ==_refl r.tool_name) refl in
    let name_known : contains r.tool_name known ≡ true = IsIn-contains r.tool_name known (
      IsIn-map_key (λ (x : Tool). x.tool_name) r (select (of_server env.server.id) table)
        (select-IsIn (of_server env.server.id) r table at mine)) in
    let carrying : Each (IsCarrying env.server.id r.tool_name r.schema_hash) r.id table =
      All-of_IsIn (λ (x : Tool). x.id ≡ r.id → IsCarrying env.server.id r.tool_name r.schema_hash x)
        table
        (λ x there same.
          subst (IsCarrying env.server.id r.tool_name r.schema_hash)
            (same_item (λ (y : Tool). y.id) table r x unique at there (sym same))
            (record { row = hit; hash_is = refl })) in
    ingests-IsOff r.id later _ news (
      unlist_tools-IsOff r.id env new env.server.id known _ _ (
        list_tools-quarantines r.id env new r.tool_name r.schema_hash (rw policy refl)
          (some-is_none r.schema_hash carried) known 0 specs bad _ name_known listed named changed
          carrying))
