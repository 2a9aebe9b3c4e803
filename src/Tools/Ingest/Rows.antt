-- ===== src/Tools/Ingest/Rows.antt =====
-- What an ingest does to the rows of one tool (backend/app/mcp/manager.py).
use concierge_agent.Prelude.{
  ℕ, ◌≡◌, ◌≢◌, refl, sym, ◌∙◌, Bool, true, false, ◌&&◌, some, List, [], ◌∷◌, map, String,
  if◌then◌else◌, ◌==◌, nat_eq, string_eq, option_eq, contains, All, Bool-cases, any_where, if-both,
  inl, inr,
}
use mathlib.Core.Bool.{true≢false}
use concierge_agent.Ambient.Events.{Uuid}
use concierge_agent.Tools.{
  Tool, quarantined, is_none, is_known, in_service, apply_schema, apply_description,
}
use concierge_agent.Tools.Ingest.{
  Env, Spec, policy_of, is_row, come_back, relist, unlist, new_key, new_tool, overwrite, upsert,
  Listing, list_tool,
}

-- The rows with this id have the property.
abbrev pub Each : (Tool → Type 0) → Uuid → List Tool → Type 0
Each P i table = All (λ (r : Tool). r.id ≡ i → P r) table

-- What an ingest never changes.
pub record IsSameTool (r q : Tool) : Type 0 where
  pub id : q.id ≡ r.id
  pub server : q.mcp_server_id ≡ r.mcp_server_id
  pub tool_name : q.tool_name ≡ r.tool_name
  pub tool_key : q.tool_key ≡ r.tool_key
  pub deleted_at : q.deleted_at ≡ r.deleted_at

IsSameTool-refl : (r : Tool) → IsSameTool r r
IsSameTool-refl r = record {
  id = refl;
  server = refl;
  tool_name = refl;
  tool_key = refl;
  deleted_at = refl;
}

IsSameTool-trans : (r q p : Tool) → IsSameTool r q → IsSameTool q p → IsSameTool r p
IsSameTool-trans r q p h k = record {
  id = k.id ∙ h.id;
  server = k.server ∙ h.server;
  tool_name = k.tool_name ∙ h.tool_name;
  tool_key = k.tool_key ∙ h.tool_key;
  deleted_at = k.deleted_at ∙ h.deleted_at;
}

same_tool :
    (r q : Tool)
    → q.id ≡ r.id
    → q.mcp_server_id ≡ r.mcp_server_id
    → q.tool_name ≡ r.tool_name
    → q.tool_key ≡ r.tool_key
    → q.deleted_at ≡ r.deleted_at
    → IsSameTool r q
same_tool r q a b c d e = record { id = a; server = b; tool_name = c; tool_key = d; deleted_at = e }

come_back-IsSameTool : (r : Tool) → IsSameTool r (come_back r)
unfolding come_back
come_back-IsSameTool r =
    let active : Tool = record r { status = "active" } in
    let p = r.ingest_state == some "missing" && is_none r.deleted_at in
    let q = if p then active else r in
    let h =
      if-both (IsSameTool r) p active r (λ e. same_tool r active refl refl refl refl refl)
        (λ e. IsSameTool-refl r) in
    if-both (IsSameTool r) (q.ingest_state == some quarantined) q
      (record q { ingest_state = some "present" }) (λ e. h)
      (λ e. IsSameTool-trans r q _ h (same_tool q _ refl refl refl refl refl))

module _ (env : Env) (spec : Spec) where
  apply_description-IsSameTool :
      (source : String) (r : Tool)
      → IsSameTool r (apply_description env.python spec.description source r).1
  unfolding apply_description
  apply_description-IsSameTool source r =
      if-both (λ (p : Bool × Tool). IsSameTool r p.1)
        (source == "server" && r.description_source == "operator") _ _ (λ e. IsSameTool-refl r)
        (λ e. same_tool r _ refl refl refl refl refl)

  apply_schema-IsSameTool :
      (r : Tool)
      → IsSameTool r (apply_schema env.python spec.input_schema (policy_of env.setting) env.now r).1
  unfolding apply_schema
  apply_schema-IsSameTool r =
      if-both (λ (p : Bool × Tool). IsSameTool r p.1) (is_known env.python spec.input_schema r) _ _
        (λ e. same_tool r _ refl refl refl refl refl)
        (λ e.
          if-both (λ (p : Bool × Tool). IsSameTool r p.1)
            (policy_of env.setting == "quarantine" && in_service r) _ _
            (λ e. same_tool r _ refl refl refl refl refl)
            (λ e. same_tool r _ refl refl refl refl refl))

  pub relist-IsSameTool : (r : Tool) → IsSameTool r (relist env spec r)
  unfolding relist
  relist-IsSameTool r =
      let d = (apply_description env.python spec.description "server" r).1 in
      let s = (apply_schema env.python spec.input_schema (policy_of env.setting) env.now d).1 in
      IsSameTool-trans r s (come_back s)
        (IsSameTool-trans r d s (apply_description-IsSameTool "server" r)
          (apply_schema-IsSameTool d))
        (come_back-IsSameTool s)

pub unlist-IsSameTool : (r : Tool) → IsSameTool r (unlist r)
unfolding unlist
unlist-IsSameTool r =
    if-both (IsSameTool r) (r.status == "active") _ _ (λ e. same_tool r _ refl refl refl refl refl)
      (λ e.
        if-both (IsSameTool r) (r.ingest_state == some "present") _ r
          (λ e. same_tool r _ refl refl refl refl refl) (λ e. IsSameTool-refl r))

-- A change of the rows that pass a test: what it makes of a property.
pub map-Each :
    (P Q : Tool → Type 0) (i : Uuid) (test : Tool → Bool) (f : Tool → Tool) (table : List Tool)
    → ((r : Tool) → (f r).id ≡ r.id)
    → ((r : Tool) → test r ≡ true → P r → Q (f r))
    → ((r : Tool) → test r ≡ false → P r → Q r)
    → Each P i table
    → Each Q i (map (λ (r : Tool). if test r then f r else r) table)
map-Each P Q i test f [] same hit miss h = tt
map-Each P Q i test f (r ∷ rest) same hit miss h = (
  if-both (λ (q : Tool). q.id ≡ i → Q q) (test r) (f r) r
      (λ yes_it e. hit r yes_it (h.0 (sym (same r) ∙ e))) (λ no_it e. miss r no_it (h.0 e)),
  map-Each P Q i test f rest same hit miss h.1,
)

absent-Each :
    (P Q : Tool → Type 0) (i : Uuid) (test : Tool → Bool) (table : List Tool)
    → any_where test table ≡ false
    → ((r : Tool) → test r ≡ false → P r → Q r)
    → Each P i table
    → Each Q i table
absent-Each P Q i test [] none_hit miss h = tt
absent-Each P Q i test (r ∷ rest) none_hit miss h = elim (Bool-cases (test r)) [
  | inl hit ↦
      let found_one : any_where test (r ∷ rest) ≡ true = rw hit refl in
      absurd (true≢false (sym found_one ∙ none_hit))
  | inr other ↦
      (λ e. miss r other (h.0 e), absent-Each P Q i test rest (rw other at none_hit) miss h.1)
]

-- A round of the loop over the list: what it makes of a property.
pub list_tool-Each :
    (P Q : Tool → Type 0) (i : Uuid) (env : Env) (known : List String) (n : ℕ) (spec : Spec)
    (s : Listing)
    → env.fresh n ≢ i
    → ((r : Tool) → is_row env.server.id spec.name r ≡ true → P r → Q (relist env spec r))
    → ((r new : Tool)
        → contains spec.name known ≡ false
        → is_row env.server.id spec.name r ≡ true
        → P r
        → Q (overwrite new r))
    → ((r : Tool) → is_row env.server.id spec.name r ≡ false → P r → Q r)
    → Each P i s.table
    → Each Q i (list_tool env known n spec s).table
unfolding list_tool upsert overwrite new_tool
list_tool-Each P Q i env known n spec s new hit over miss h =
    let mine = is_row env.server.id spec.name in
    let row = new_tool env n spec (new_key env n spec s.taken) in
    if-both (λ (t : Listing). Each Q i t.table) (contains spec.name known) _ _
      (λ e.
        map-Each P Q i mine (relist env spec) s.table (λ r. (relist-IsSameTool env spec r).id) hit
          miss h)
      (λ e.
        if-both (Each Q i) (any_where mine s.table) _ (row ∷ s.table)
          (λ f. map-Each P Q i mine (overwrite row) s.table (λ r. refl) (λ r. over r row e) miss h)
          (λ f. (λ same. absurd (new same), absent-Each P Q i mine s.table f miss h)))
