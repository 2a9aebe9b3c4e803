-- ===== src/Tools/Ingest/Returned.antt =====
-- A tool that its server drops and lists again (backend/app/mcp/manager.py).
use mathlib.Core.Bool.{true≢false}
use concierge_agent.Prelude.{
  ℕ, ◌≡◌, refl, sym, ap, subst, ◌∙◌, Bool, true, false, not, ◌&&◌, ◌||◌, Option, none, some, List,
  [], ◌∷◌, map, String, if◌then◌else◌, ◌==◌, nat_eq, string_eq, option_eq, contains, select, All,
  All-map_of, Bool-cases, if-both, ==_refl, inl, inr,
}
use concierge_agent.Tools.{
  Tool, is_none, is_known, put_same, schema_fingerprint, text_fingerprint, apply_schema,
  apply_description,
}
use concierge_agent.Tools.Ingest.{
  Env, Spec, Server, policy_of, of_server, is_row, come_back, relist, unlist, Listing, list_tool,
  list_tools, unlist_tools, ingest,
}

-- The row of a tool in service that carries what the server lists.
abbrev pub as_listed : Env → Spec → ℕ → Tool → Tool
as_listed env spec version row = record row {
  description = spec.description;
  status = "active";
  deleted_at = none;
  mcp_server_id = some env.server.id;
  tool_name = spec.name;
  input_schema = spec.input_schema;
  ingest_state = some "present";
  schema_hash = schema_fingerprint env.python spec.input_schema;
  schema_version = some version;
  description_hash = text_fingerprint env.python spec.description;
  description_source = "server";
}

module _ (env : Env) (spec : Spec) (version : ℕ) (row : Tool) where
  abbrev listed : Tool
  listed = as_listed env spec version row

  abbrev fingerprint : Option String
  fingerprint = schema_fingerprint env.python spec.input_schema

  carried : (is_none fingerprint || (fingerprint == fingerprint)) ≡ true
  carried = elim (Bool-cases (is_none fingerprint)) [
    | inl e ↦ rw e refl
    | inr e ↦ rw (e, ==_refl fingerprint) refl
  ]

  apply_schema-same :
      (r : Tool)
      → r.schema_hash ≡ fingerprint
      → (apply_schema env.python spec.input_schema (policy_of env.setting) env.now r)
        ≡ (false, put_same env.python spec.input_schema r)
  unfolding apply_schema
  apply_schema-same r e =
      let known : is_known env.python spec.input_schema r ≡ true = rw e carried in
      if-both (λ (p : Bool × Tool). p ≡ (false, put_same env.python spec.input_schema r))
        (is_known env.python spec.input_schema r) _ _ (λ f. refl)
        (λ f. absurd (true≢false (sym known ∙ f)))

  relist-unlist : relist env spec (unlist listed) ≡ listed
  unfolding relist unlist apply_description come_back
  relist-unlist = ap (λ (p : Bool × Tool). come_back p.1) (apply_schema-same (unlist listed) refl)

and-not : (a c : Bool) → (a && (c && not c)) ≡ false
and-not true true = refl
and-not true false = refl
and-not false c = refl

others_stay :
    (test : Tool → Bool) (f : Tool → Tool) (rows : List Tool)
    → All (λ (r : Tool). test r ≡ false) rows
    → map (λ (r : Tool). if test r then f r else r) rows ≡ rows
others_stay test f [] h = refl
others_stay test f (r ∷ rest) h = rw h.0 (ap (λ l. r ∷ l) (others_stay test f rest h.1))

select-none :
    (test : Tool → Bool) (rows : List Tool)
    → All (λ (r : Tool). test r ≡ false) rows
    → select test rows ≡ []
select-none test [] h = refl
select-none test (r ∷ rest) h = rw h.0 (select-none test rest h.1)

module _ (env : Env) (others : List Tool)
    (foreign : All (λ (r : Tool). of_server env.server.id r ≡ false) others) where
  -- A test that asks for the server lets no other row pass.
  foreign_also :
      (test : Tool → Bool)
      → All (λ (r : Tool). (of_server env.server.id r && test r) ≡ false) others
  foreign_also test =
      All-map_of (λ (r : Tool). of_server env.server.id r ≡ false) _ others (λ r e. rw e refl)
        foreign

  drop_out :
      (x : Tool) → of_server env.server.id x ≡ true → ingest env [] (x ∷ others) ≡ unlist x ∷ others
  unfolding ingest unlist_tools list_tools
  drop_out x mine =
      rw (mine, ==_refl x.tool_name)
        (ap (λ l. unlist x ∷ l) (others_stay _ unlist others (foreign_also _)))

  known_names :
      (x : Tool)
      → of_server env.server.id x ≡ true
      → map (λ (r : Tool). r.tool_name) (select (of_server env.server.id) (x ∷ others))
        ≡ x.tool_name ∷ []
  known_names x mine = rw mine (
      ap (λ l. x.tool_name ∷ map (λ (r : Tool). r.tool_name) l)
        (select-none (of_server env.server.id) others foreign))

  list_tool-back :
      (spec : Spec) (x y : Tool) (taken : List String)
      → of_server env.server.id x ≡ true
      → x.tool_name ≡ spec.name
      → relist env spec x ≡ y
      → (list_tool env (spec.name ∷ []) 0 spec (record { table = x ∷ others; taken = taken })).table
        ≡ y ∷ others
  unfolding list_tool
  list_tool-back spec x y taken mine named e =
      let hit : is_row env.server.id spec.name x ≡ true = rw (mine, named) (==_refl spec.name) in
      rw (==_refl spec.name) (
        rw hit (
          ap
            (λ z.
              z
              ∷ map
                  (λ (r : Tool). if is_row env.server.id spec.name r then relist env spec r else r)
                  others)
            e
          ∙ ap (λ l. y ∷ l)
              (others_stay (is_row env.server.id spec.name) (relist env spec) others
                (foreign_also _))))

  unlist_tools-listed :
      (name : String) (y : Tool)
      → unlist_tools env.server.id (name ∷ []) (name ∷ []) (y ∷ others) ≡ y ∷ others
  unfolding unlist_tools
  unlist_tools-listed name y =
      let test = λ (r : Tool).
        of_server env.server.id r
        && (contains r.tool_name (name ∷ []) && not (contains r.tool_name (name ∷ []))) in
      let keeps : test y ≡ false =
        and-not (of_server env.server.id y) (contains y.tool_name (name ∷ [])) in
      others_stay test unlist (y ∷ others) (keeps, foreign_also _)

  come_in :
      (spec : Spec) (x y : Tool)
      → of_server env.server.id x ≡ true
      → x.tool_name ≡ spec.name
      → relist env spec x ≡ y
      → ingest env (spec ∷ []) (x ∷ others) ≡ y ∷ others
  unfolding ingest list_tools
  come_in spec x y mine named e =
      let start : Listing = record {
        table = x ∷ others;
        taken = map (λ (r : Tool). r.tool_key) (x ∷ others);
      } in
      let known = known_names x mine ∙ ap (λ name. name ∷ []) named in
      ap
        (λ names.
          unlist_tools env.server.id names (spec.name ∷ [])
            (list_tools env names 0 (spec ∷ []) start).table)
        known
      ∙ (ap (unlist_tools env.server.id (spec.name ∷ []) (spec.name ∷ []))
            (list_tool-back spec x y start.taken mine named e)
          ∙ unlist_tools-listed spec.name y)

-- A tool in service that its server leaves out of one list and then lists as before gets its row back,
-- whatever the policies, and nothing else changes, if the table has no other row of the server.
pub ingest_round_trip :
    (gone env : Env) (spec : Spec) (version : ℕ) (row : Tool) (others : List Tool)
    → gone.server ≡ env.server
    → All (λ (r : Tool). of_server env.server.id r ≡ false) others
    → ingest env (spec ∷ []) (ingest gone [] (as_listed env spec version row ∷ others))
      ≡ as_listed env spec version row ∷ others
unfolding unlist
ingest_round_trip gone env spec version row others same foreign =
    let listed = as_listed env spec version row in
    let id = ap (λ (x : Server). x.id) same in
    let mine : of_server env.server.id listed ≡ true = ==_refl env.server.id in
    let away : ingest gone [] (listed ∷ others) ≡ unlist listed ∷ others =
      drop_out gone others
        (subst (λ i. All (λ (r : Tool). of_server i r ≡ false) others) (sym id) foreign) listed
        (subst (λ i. of_server i listed ≡ true) (sym id) mine) in
    ap (ingest env (spec ∷ [])) away
    ∙ come_in env others foreign spec (unlist listed) listed (==_refl env.server.id) refl
        (relist-unlist env spec version row)
