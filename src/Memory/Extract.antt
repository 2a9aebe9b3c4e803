-- ===== src/Memory/Extract.antt =====
-- How a candidate that passed the gate meets the table (reconcile_and_write, _judge_neighbors and
-- extract_from_run of backend/app/memory/extract.py). What the search and the language model answer
-- is an input.
pub mod Forgotten
pub mod Suppressed
use concierge_agent.Prelude.{
  ℕ, suc, String, Bool, true, false, not, ◌&&◌, Option, none, some, List, [], ◌∷◌, ◌++◌, ltb,
  if◌then◌else◌, ◌==◌, nat_eq, string_eq, option_eq, list_eq, find_where,
}
use concierge_agent.Prelude.Clock.{Instant}
use concierge_agent.Factory.Json.{Fields}
use concierge_agent.Memory.Words.{Text}
use concierge_agent.Memory.Rows.{Uuid, Memory, Store, get_memory}
use concierge_agent.Memory.Tombstones.{Env, check_suppressed}
use concierge_agent.Memory.Store.{Note, Written, refused, wrote, remember}
use concierge_agent.Memory.Changes.{Revision, supersede}

pub record Candidate : Type 0 where
  pub text : Text
  pub kind : String
  pub scope : String
  pub conversation_id : Option Uuid
  pub payload : Option Fields
  pub entity_key : Option String
  pub importance : ℕ
  pub confidence : ℕ

-- A verdict on the neighbour with a number, from 1; other numbers are ignored.
pub record NeighborVerdict : Type 0 where
  pub index : ℕ
  pub verdict : String

-- One call: what it meets, the neighbours that `recall` finds, and the verdicts on them.
pub record Extraction : Type 0 where
  pub env : Env
  pub candidate : Candidate
  pub run_id : Uuid
  pub neighbors : List Memory
  pub verdicts : List NeighborVerdict

-- The last verdict with the number, or "related".
verdict_on : ℕ → List NeighborVerdict → String → String
verdict_on i [] last = last
verdict_on i (v ∷ rest) last = verdict_on i rest (if v.index == i then v.verdict else last)

same_from : ℕ → List NeighborVerdict → List Memory → List Memory
unfolding verdict_on
same_from i vs [] = []
same_from i vs (m ∷ rest) =
    let more = same_from (suc i) vs rest in
    if verdict_on i vs "related" == "same" then m ∷ more else more

-- max(same, key=lambda m: m.valid_from): the first of the newest
newest_of : Memory → List Memory → Memory
newest_of best [] = best
newest_of best (m ∷ rest) = newest_of (if ltb best.valid_from m.valid_from then m else best) rest

note_of : Candidate → Uuid → Option Fields → Note
note_of c run payload = record {
  text = c.text;
  kind = c.kind;
  scope = c.scope;
  source = "extracted";
  conversation_id = c.conversation_id;
  payload = payload;
  entity_key = c.entity_key;
  importance = c.importance;
  confidence = c.confidence;
  valid_from = none;
  run_id = some run;
  step_id = none;
  supersedes = none;
  via_tool = false;
  project_key = none;
  user_id = none;
}

revision_of : Candidate → Uuid → Revision
revision_of c run = record {
  text = c.text;
  source = "extracted";
  run_id = some run;
  step_id = none;
  payload = none;
  importance = some c.importance;
  confidence = some c.confidence;
  valid_from = none;
}

abbrev pub returned : Written × Store → Option Written × Store
returned (w, store) = (some w, store)

unfoldable pub add_candidate : Extraction → Option Fields → Store → Option Written × Store
unfolding note_of
add_candidate x payload store =
    returned (remember x.env (note_of x.candidate x.run_id payload) store)

-- NOOP for the same text, else the row is replaced.
unfoldable pub replace_match : Extraction → Memory → Store → Option Written × Store
unfolding revision_of
replace_match x row store =
    if x.env.unicode.lower row.text == x.env.unicode.lower x.candidate.text
    then (none, store)
    else returned (
        supersede x.env (revision_of x.candidate x.run_id) (get_memory row.id store.memories) store)

unfoldable pub by_neighbors : Extraction → List Memory → Store → Option Written × Store
unfolding newest_of
by_neighbors x [] store = add_candidate x x.candidate.payload store
by_neighbors x (m ∷ rest) store = replace_match x (newest_of m rest) store

abbrev is_match : String → String → Memory → Bool
is_match key scope m = m.entity_key == some key && m.status == "active" && m.scope == scope

-- The active row that the entity key names, if there is a key.
match_of : Candidate → List Memory → Option Memory
match_of c rows = elim c.entity_key [
  | none ↦ none
  | some key ↦ if key == "" then none else find_where (is_match key c.scope) rows
]

unfoldable pub resolve_candidate : Extraction → Option Memory → Store → Option Written × Store
unfolding same_from
resolve_candidate x (some row) store = replace_match x row store
resolve_candidate x none store = by_neighbors x (same_from 1 x.verdicts x.neighbors) store

unfoldable pub write_candidate : Extraction → Store → Option Written × Store
unfolding match_of
write_candidate x store =
    if x.candidate.kind == "instruction"
    then add_candidate x none store
    else resolve_candidate x (match_of x.candidate store.memories) store

abbrev pub with_tombstones : Extraction → Store → Store
with_tombstones x store = record store {
  tombstones =
      (check_suppressed x.env x.candidate.text x.candidate.scope x.env.requester
        store.tombstones).1;
}

-- What `reconcile_and_write` returns, and the tables after it.
unfoldable pub reconcile_and_write : Extraction → Store → Option Written × Store
unfolding write_candidate
reconcile_and_write x store =
    if (check_suppressed x.env x.candidate.text x.candidate.scope x.env.requester
      store.tombstones).0
    then (none, with_tombstones x store)
    else write_candidate x (with_tombstones x store)

-- The rows written by the loop over the candidates; one that raises is passed over.
abbrev collect : Option Written → List Memory → List Memory
collect none rest = rest
collect (some (refused e)) rest = rest
collect (some (wrote m)) rest = m ∷ rest

unfoldable pub extract : List Extraction → Store → List Memory × Store
unfolding reconcile_and_write
extract [] store = ([], store)
extract (x ∷ xs) store =
    let (result, next) = reconcile_and_write x store in
    let (rest, last) = extract xs next in (collect result rest, last)
