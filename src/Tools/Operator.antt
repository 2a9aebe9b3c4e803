-- ===== src/Tools/Operator.antt =====
-- What an operator does to a tool (backend/app/api/tools.py, with fetch_or_404 and
-- enforce_static_rules of backend/app/api/deps.py).
pub mod Disabled
use concierge_agent.Prelude.{
  ℕ, String, Bool, true, false, not, ◌&&◌, ◌||◌, Option, none, some, List, [], ◌∷◌, map,
  if◌then◌else◌, ◌==◌, nat_eq, string_eq, option_eq, any_where, find_where,
}
use concierge_agent.Prelude.Clock.{Instant}
use concierge_agent.Prelude.Text.{concat, codes, occurs}
use concierge_agent.Ambient.Events.{Uuid}
use concierge_agent.Tools.{
  Python, Tool, quarantined, is_none, apply_description, acknowledge_schema,
}
use concierge_agent.Tools.Names.{same_name}

-- The body of PATCH: `none` for a field that is not set. A description may be set to null; the body
-- cannot say any other description_source than 'server'.
pub record Patch : Type 0 where
  pub description : Option (Option String)
  pub status : Option String
  pub direct_exposure : Option Bool
  pub tool_key : Option String
  pub hands_back : Bool

-- A refusal has the status code of the HTTPException.
pub data Answer : Type 0 where
  refused : ℕ → Answer
  done : List Tool → Answer

-- The instructions of the skills that are bound to a tool and not deleted.
abbrev pub Bindings : Type 0
Bindings = Uuid → List String

abbrev pub is_tool : Uuid → Tool → Bool
is_tool id row = row.id == id

unfoldable pub fetch_or_404 : Uuid → List Tool → Option Tool
fetch_or_404 id table = elim (find_where (is_tool id) table) [
  | none ↦ none
  | some row ↦ if is_none row.deleted_at then some row else none
]

unfoldable pub write : Uuid → (Tool → Tool) → List Tool → List Tool
write id f table = map (λ (r : Tool). if is_tool id r then f r else r) table

-- Fields that a static record keeps are set.
unfoldable pub breaks_static_rules : Patch → Tool → Bool
breaks_static_rules patch row =
    row.source == "static"
    && (not (is_none patch.description) || not (is_none patch.tool_key) || patch.hands_back)

abbrev pub mentions : String → String → Bool
mentions key instructions = occurs (codes (concat ("{tool:" ∷ key ∷ "}" ∷ []))) (codes instructions)

-- The tests of a rename.
unfoldable pub key_is_refused : Option String → Tool → Bindings → List Tool → Bool
unfolding same_name
key_is_refused none row skills table = false
key_is_refused (some key) row skills table =
    not (key == row.tool_key)
    && (any_where (λ (other : Tool). not (is_tool row.id other) && same_name other.tool_key key)
          table
        || any_where (mentions row.tool_key) (skills row.id))

-- The description, if it is set to another text.
unfoldable pub set_description : Python → Option (Option String) → Tool → Tool
unfolding apply_description
set_description python (some (some text)) row =
    if text == row.description then row else (apply_description python text "operator" row).1
set_description python _ row = row

abbrev pub hand_back : Bool → Tool → Tool
hand_back true row = record row { description_source = "server"; description_hash = none }
hand_back false row = row

module _ {ℓ} {A : Type ℓ} where
  abbrev pub set_or : Option A → A → A
  set_or none old = old
  set_or (some new) old = new

unfoldable pub patch_row : Python → Patch → Tool → Tool
unfolding set_description
patch_row python patch row =
    let row1 = hand_back patch.hands_back (set_description python patch.description row) in
    record row1 {
      status = set_or patch.status row1.status;
      direct_exposure = set_or patch.direct_exposure row1.direct_exposure;
      tool_key = set_or patch.tool_key row1.tool_key;
    }

unfoldable pub patch_tool : Python → Bindings → Uuid → Patch → List Tool → Answer
unfolding fetch_or_404 breaks_static_rules key_is_refused patch_row write
patch_tool python skills id patch table = elim (fetch_or_404 id table) [
  | none ↦ refused 404
  | some row ↦
      if breaks_static_rules patch row
      then refused 403
      else if key_is_refused patch.tool_key row skills table
      then refused 409
      else done (write id (patch_row python patch) table)
]

abbrev pub is_cons {ℓ} : {A : Type ℓ} → List A → Bool
is_cons [] = false
is_cons (x ∷ xs) = true

unfoldable pub delete_tool : Bindings → Instant → Uuid → List Tool → Answer
unfolding fetch_or_404 write
delete_tool skills now id table = elim (fetch_or_404 id table) [
  | none ↦ refused 404
  | some row ↦
      if row.source == "static"
      then refused 403
      else if is_cons (skills id)
      then refused 409
      else done (write id (λ (r : Tool). record r { deleted_at = some now }) table)
]

unfoldable pub restore_tool : Uuid → List Tool → Answer
unfolding write
restore_tool id table = elim (find_where (is_tool id) table) [
  | none ↦ refused 404
  | some row ↦
      if is_none row.deleted_at
      then done table
      else done (write id (λ (r : Tool). record r { deleted_at = none }) table)
]

unfoldable pub acknowledge_schema_change : Uuid → List Tool → Answer
unfolding fetch_or_404 acknowledge_schema write
acknowledge_schema_change id table = elim (fetch_or_404 id table) [
  | none ↦ refused 404
  | some row ↦
      if is_none row.schema_changed_at && not (row.ingest_state == some quarantined)
      then done table
      else done (write id acknowledge_schema table)
]
