-- ===== src/Tools/Operator/Disabled.antt =====
-- A tool that an operator takes out of service (backend/app/api/tools.py,
-- backend/app/mcp/manager.py).
use concierge_agent.Prelude.{
  ℕ, ◌≡◌, ◌≢◌, All-map_of, refl, ap, subst, inl, inr, false, ◌&&◌, Option, none, some, List, [],
  String, ◌==◌, nat_eq, string_eq, option_eq, All, Bool-cases, Option-cases, if-both, ==_ne,
}
use concierge_agent.Ambient.Events.{Uuid}
use concierge_agent.Tools.{Python, Tool, is_none, apply_description}
use concierge_agent.Tools.Operator.{
  Patch, Answer, refused, done, Bindings, is_tool, fetch_or_404, write, breaks_static_rules,
  key_is_refused, set_description, patch_row, patch_tool,
}
use concierge_agent.Tools.Ingest.{Env, Spec}
use concierge_agent.Tools.Ingest.Rows.{Each, map-Each}
use concierge_agent.Tools.Ingest.Service.{IsOff, IsFreshOf, ingests, ingests-IsOff}

-- The server has not dropped the tool.
abbrev pub IsThere : Tool → Type 0
IsThere r = (r.ingest_state == some "missing" && is_none r.deleted_at) ≡ false

module _ (python : Python) (patch : Patch) where
  set_description-keeps :
      (d : Option (Option String)) (r : Tool)
      → ((set_description python d r).id ≡ r.id)
        × (((set_description python d r).ingest_state ≡ r.ingest_state)
            × ((set_description python d r).deleted_at ≡ r.deleted_at))
  unfolding set_description apply_description
  set_description-keeps none r = (refl, (refl, refl))
  set_description-keeps (some none) r = (refl, (refl, refl))
  set_description-keeps (some (some text)) r =
      let P = λ (q : Tool).
        (q.id ≡ r.id) × ((q.ingest_state ≡ r.ingest_state) × (q.deleted_at ≡ r.deleted_at)) in
      if-both P (text == r.description) r _ (λ e. (refl, (refl, refl))) (λ e. (refl, (refl, refl)))

  patch_row-keeps :
      (r : Tool)
      → ((patch_row python patch r).id ≡ r.id)
        × (((patch_row python patch r).ingest_state ≡ r.ingest_state)
            × ((patch_row python patch r).deleted_at ≡ r.deleted_at))
  unfolding patch_row
  patch_row-keeps r =
      let P = λ (q : Tool).
        (q.id ≡ r.id) × ((q.ingest_state ≡ r.ingest_state) × (q.deleted_at ≡ r.deleted_at)) in
      elim (Bool-cases patch.hands_back) [
        | inl back ↦ rw (back, patch_row) (set_description-keeps patch.description r)
        | inr other ↦ rw (other, patch_row) (set_description-keeps patch.description r)
      ]

  patch_row-IsOff :
      (r : Tool) → patch.status ≡ some "inactive" → IsThere r → IsOff (patch_row python patch r)
  unfolding patch_row
  patch_row-IsOff r off there = record {
    status = rw (off, patch_row) (==_ne "inactive" "active" refl);
    not_missing = rw ((patch_row-keeps r).1.0, (patch_row-keeps r).1.1) there;
  }

abbrev table_of : Answer → List Tool
table_of (refused code) = []
table_of (done table) = table

refused-ne : (code : ℕ) (table : List Tool) → refused code ≢ done table
refused-ne code table h = cc

-- A tool that an operator sets inactive while its server has it stays out of service, whatever ingests
-- follow, if no fresh id is its id.
pub patch_tool-IsOff :
    (python : Python) (skills : Bindings) (id : Uuid) (patch : Patch) (table after : List Tool)
    (later : List (Env × List Spec))
    → patch.status ≡ some "inactive"
    → Each IsThere id table
    → patch_tool python skills id patch table ≡ done after
    → All (λ (p : Env × List Spec). IsFreshOf id p.0) later
    → Each IsOff id (ingests later after)
unfolding patch_tool write
patch_tool-IsOff python skills id patch table after later off there e news =
    let P : Answer → Type 0 = λ a. a ≡ done after → Each IsOff id after in
    let Row : Tool → Type 0 = λ r. (r.id ≡ id) × IsThere r in
    let rows : Each Row id table =
      All-map_of (λ (r : Tool). r.id ≡ id → IsThere r) (λ (r : Tool). r.id ≡ id → Row r) table
        (λ r h same. (same, h same)) there in
    let written : Each IsOff id (write id (patch_row python patch) table) =
      map-Each Row IsOff id (is_tool id) (patch_row python patch) table
        (λ r. (patch_row-keeps python patch r).0)
        (λ r hit h. patch_row-IsOff python patch r off h.1)
        (λ r other h. absurd (==_ne r.id id other h.0)) rows in
    let no_change : (code : ℕ) → P (refused code) = λ code k. absurd (refused-ne code after k) in
    let h : P (patch_tool python skills id patch table) =
      elim (Option-cases (fetch_or_404 id table)) [
        | inl missing ↦ rw (missing, patch_tool) (no_change 404)
        | inr (row, known) ↦
            rw (known, patch_tool)
              (if-both P (breaks_static_rules patch row) (refused 403) _ (λ f. no_change 403)
                (λ f.
                  if-both P (key_is_refused patch.tool_key row skills table) (refused 409) _
                    (λ g. no_change 409) (λ g k. subst (Each IsOff id) (ap table_of k) written)))
      ] in
    ingests-IsOff id later after news (h e)
