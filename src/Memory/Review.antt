-- ===== src/Memory/Review.antt =====
-- What a user changes in a memory (patch of backend/app/api/memories.py) and the credit for a
-- citation (post_run_citation of backend/app/memory/feedback.py).
use concierge_agent.Prelude.{
  ℕ, ◌+◌, ◌-◌, suc, Bool, true, false, not, ◌&&◌, ◌||◌, Option, none, some, List, map, min, ltb,
  String, if◌then◌else◌, ◌==◌, nat_eq, string_eq, option_eq, list_eq, contains,
}
use concierge_agent.Prelude.Clock.{Instant, hours}
use concierge_agent.Factory.Json.{Json, str, Fields, end, field, get_field}
use concierge_agent.Memory.Words.{Text}
use concierge_agent.Memory.Rows.{Uuid, Memory, Store, get_memory}
use concierge_agent.Memory.Tombstones.{Env}
use concierge_agent.Memory.Store.{Written, refused, wrote, or_else}
use concierge_agent.Memory.Changes.{Revision, supersede}

pub data Verdict : Type 0 where
  approve reject : Verdict

-- The body of the request.
pub record MemoryPatch : Type 0 where
  pub pinned : Option Bool
  pub text : Option Text
  pub importance : Option ℕ
  pub review : Option Verdict
  pub review_note : Option String

-- 404, 409 for a refused text, 409 for a review of what is not in quarantine, or the row.
pub data Patched : Type 0 where
  missing conflict not_quarantined : Patched
  patched : Memory → Patched

abbrev pub revision_of : Text → Option ℕ → Revision
revision_of text importance = record {
  text = text;
  source = "user_edited";
  run_id = none;
  step_id = none;
  payload = none;
  importance = importance;
  confidence = none;
  valid_from = none;
}

-- row.pinned = body.pinned
abbrev pub pin : Uuid → Option Bool → Memory → Memory
pin id none m = m
pin id (some pinned) m = if m.id == id then record m { pinned = pinned } else m

unfoldable pub edited : Option Bool → Written × Store → Patched × Store
edited pinned (refused e, store) = (conflict, store)
edited pinned (wrote new, store) = (
  patched (pin new.id pinned new),
  record store { memories = map (pin new.id pinned) store.memories },
)

abbrev pub judge : Instant → Option String → Verdict → Memory → Memory
judge now remark approve m = record m { status = "active"; review_note = remark }
judge now remark reject m = record m {
  status = "rejected";
  review_note = remark;
  valid_to = some now;
}

unfoldable pub judged : Instant → Option String → Option Verdict → Memory → Memory
judged now remark none m = m
judged now remark (some verdict) m = judge now remark verdict m

unfoldable pub adjust : Instant → MemoryPatch → Memory → Memory
unfolding judged
adjust now body m =
    let row = judged now body.review_note body.review m in
    record row {
      pinned = or_else body.pinned row.pinned;
      importance = or_else body.importance row.importance;
    }

abbrev pub is_new_text : Option Text → Memory → Bool
is_new_text none row = false
is_new_text (some text) row = not (text == row.text)

unfoldable pub is_reviewed : Option Verdict → Bool
is_reviewed none = false
is_reviewed (some verdict) = true

-- A row that the requester may see.
unfoldable pub patch_row : Env → Uuid → MemoryPatch → Memory → Store → Patched × Store
unfolding edited adjust is_reviewed supersede
patch_row env id body row store =
    if is_new_text body.text row
    then edited body.pinned
        (supersede env (revision_of (or_else body.text row.text) body.importance) (some row) store)
    else if is_reviewed body.review && not (row.status == "quarantined")
    then (not_quarantined, store)
    else (
      patched (adjust env.now body row),
      record store {
        memories = map (λ m. if m.id == id then adjust env.now body m else m) store.memories;
      },
    )

-- `owns_row` is the rule of the provider of accounts.
unfoldable pub patch : (Memory → Bool) → Env → Uuid → MemoryPatch → Store → Patched × Store
unfolding patch_row
patch owns_row env id body store = elim (get_memory id store.memories) [
  | none ↦ (missing, store)
  | some row ↦ if owns_row row then patch_row env id body row store else (missing, store)
]

-- payload[k] = v, at the place of the key if there is one
unfoldable pub put_field : Fields → String → Json → Fields
put_field end k v = field k v end
put_field (field j w rest) k v =
    let later = put_field rest k v in if j == k then field k v rest else field j w later

unfoldable pub fields_of : Option Fields → Fields
fields_of none = end
fields_of (some fields) = fields

-- `parse` is datetime.fromisoformat; none stands for its ValueError.
is_recent : (String → Option Instant) → Instant → Json → Bool
is_recent parse now (str last) = elim (parse last) [
  | none ↦ false
  | some at ↦ ltb (now - at) (hours 24)
]
is_recent parse now _ = false

unfoldable pub reward : (Instant → String) → Instant → Memory → Memory
unfolding put_field fields_of
reward print now m = record m {
  importance = min (m.importance + 1) 10;
  payload = some (put_field (fields_of m.payload) "last_cited_at" (str (print now)));
}

unfoldable pub credit : (String → Option Instant) → (Instant → String) → Instant → Memory → Memory
unfolding is_recent reward fields_of
credit parse print now m =
    let row = record m { last_accessed_at = now; access_count = suc m.access_count } in
    if m.source == "inferred"
      || is_recent parse now (get_field (fields_of m.payload) "last_cited_at")
    then row
    else reward print now row

-- The rows that the answer cites. An access is counted always, a reward once in a day.
unfoldable pub cite :
    (String → Option Instant) → (Instant → String) → Instant → List Uuid → Store → Store
unfolding credit
cite parse print now cited store = record store {
  memories = map (λ m. if contains m.id cited then credit parse print now m else m) store.memories;
}
