-- ===== src/Tools/Ingest/Service.antt =====
-- Tools that are out of service (backend/app/mcp/manager.py, backend/app/toolschema.py).
use concierge_agent.Prelude.{
  ℕ, suc, ◌≡◌, ◌≢◌, refl, Bool, false, not, ◌&&◌, some, List, [], ◌∷◌, String, ◌==◌, nat_eq,
  string_eq, option_eq, contains, All, if-both, ==_eq, ==_ne,
}
use concierge_agent.Ambient.Events.{Uuid}
use concierge_agent.Tools.{
  Tool, quarantined, is_none, is_known, in_service, apply_schema, apply_description,
}
use concierge_agent.Tools.Ingest.{
  Env, Spec, policy_of, of_server, come_back, relist, unlist, overwrite, Listing, list_tool,
  list_tools, unlist_tools, ingest,
}
use concierge_agent.Tools.Ingest.Rows.{Each, map-Each, list_tool-Each, unlist-IsSameTool}

-- Out of service, and not for the server's absence alone.
pub record IsOff (r : Tool) : Type 0 where
  pub status : r.status ≢ "active"
  pub not_missing : (r.ingest_state == some "missing" && is_none r.deleted_at) ≡ false

pub come_back-IsOff : (r : Tool) → IsOff r → IsOff (come_back r)
unfolding come_back
come_back-IsOff r h =
    rw (h.not_missing, come_back)
      (if-both IsOff (r.ingest_state == some quarantined) r _ (λ e. h)
        (λ e. record { status = h.status; not_missing = refl }))

module _ (env : Env) (spec : Spec) where
  apply_description-IsOff :
      (source : String) (r : Tool)
      → IsOff r
      → IsOff (apply_description env.python spec.description source r).1
  unfolding apply_description
  apply_description-IsOff source r h =
      if-both (λ (p : Bool × Tool). IsOff p.1)
        (source == "server" && r.description_source == "operator") _ _ (λ e. h)
        (λ e. record { status = h.status; not_missing = h.not_missing })

  apply_schema-IsOff :
      (r : Tool)
      → IsOff r
      → IsOff (apply_schema env.python spec.input_schema (policy_of env.setting) env.now r).1
  unfolding apply_schema
  apply_schema-IsOff r h =
      if-both (λ (p : Bool × Tool). IsOff p.1) (is_known env.python spec.input_schema r) _ _
        (λ e. record { status = h.status; not_missing = h.not_missing })
        (λ e.
          if-both (λ (p : Bool × Tool). IsOff p.1)
            (policy_of env.setting == "quarantine" && in_service r) _ _
            (λ f. record { status = ==_ne "inactive" "active" refl; not_missing = refl })
            (λ f. record { status = h.status; not_missing = h.not_missing }))

  relist-IsOff : (r : Tool) → IsOff r → IsOff (relist env spec r)
  unfolding relist
  relist-IsOff r h =
      let d = (apply_description env.python spec.description "server" r).1 in
      come_back-IsOff
        (apply_schema env.python spec.input_schema (policy_of env.setting) env.now d).1
        (apply_schema-IsOff d (apply_description-IsOff "server" r h))

unlist-IsOff : (r : Tool) → IsOff r → IsOff (unlist r)
unfolding unlist
unlist-IsOff r h =
    if-both IsOff (r.status == "active") _ _ (λ e. absurd (h.status (==_eq r.status "active" e)))
      (λ e.
        if-both IsOff (r.ingest_state == some "present") _ r
          (λ f. record { status = h.status; not_missing = refl }) (λ f. h))

-- The ids that an ingest draws are others.
abbrev pub IsFreshOf : Uuid → Env → Type 0
IsFreshOf i env = (n : ℕ) → env.fresh n ≢ i

module _ (i : Uuid) (env : Env) (new : IsFreshOf i env) where
  pub list_tools-IsOff :
      (known : List String) (n : ℕ) (specs : List Spec) (s : Listing)
      → Each IsOff i s.table
      → Each IsOff i (list_tools env known n specs s).table
  unfolding list_tools overwrite
  list_tools-IsOff known n [] s h = h
  list_tools-IsOff known n (spec ∷ rest) s h =
      list_tools-IsOff known (suc n) rest (list_tool env known n spec s) (
        list_tool-Each IsOff IsOff i env known n spec s (new n) (λ r e. relist-IsOff env spec r)
          (λ r row e f off. record { status = off.status; not_missing = refl }) (λ r e off. off) h)

  pub unlist_tools-IsOff :
      (server : Uuid) (known seen : List String) (table : List Tool)
      → Each IsOff i table
      → Each IsOff i (unlist_tools server known seen table)
  unfolding unlist_tools
  unlist_tools-IsOff server known seen table h =
      map-Each IsOff IsOff i
        (λ (r : Tool).
          of_server server r && (contains r.tool_name known && not (contains r.tool_name seen)))
        unlist table (λ r. (unlist-IsSameTool r).id) (λ r e. unlist-IsOff r) (λ r e off. off) h

  ingest-IsOff :
      (specs : List Spec) (table : List Tool)
      → Each IsOff i table
      → Each IsOff i (ingest env specs table)
  unfolding ingest
  ingest-IsOff specs table h =
      unlist_tools-IsOff env.server.id _ _ _ (list_tools-IsOff _ 0 specs _ h)

-- Ingests one after the other, of whichever servers and under whatever policies.
abbrev pub ingests : List (Env × List Spec) → List Tool → List Tool
ingests [] table = table
ingests ((env, specs) ∷ later) table = ingests later (ingest env specs table)

-- Whatever ingests follow, of whichever servers and under whatever policies, a tool that is out of
-- service for another reason than its absence stays out of service, if no fresh id is its id.
pub ingests-IsOff :
    (i : Uuid) (steps : List (Env × List Spec)) (table : List Tool)
    → All (λ (p : Env × List Spec). IsFreshOf i p.0) steps
    → Each IsOff i table
    → Each IsOff i (ingests steps table)
ingests-IsOff i [] table new h = h
ingests-IsOff i ((env, specs) ∷ later) table new h =
    ingests-IsOff i later (ingest env specs table) new.1 (ingest-IsOff i env new.0 specs table h)
