-- ===== src/Memory/Sound/Reviewed.antt =====
-- What a user changes, and the credit for a citation, keep the table sound.
use concierge_agent.Prelude.{
  ℕ, ◌≡◌, refl, sym, subst, ◌∙◌, String, Bool, false, not, ◌&&◌, ◌||◌, Option, none, some, List, [],
  ◌∷◌, IsIn, inl, inr, Bool-cases, if-both, ◌==◌, ==_eq, string_eq, nat_eq, option_eq, list_eq,
  contains, Option-cases, same_item, some-ne, some-inj, All, All-IsIn,
}
use concierge_agent.Prelude.Clock.{Instant}
use concierge_agent.Factory.Json.{Json, Fields, end, field, get_field, truthy}
use concierge_agent.Memory.Rows.{Uuid, Memory, Store, ids, get_memory}
use concierge_agent.Memory.Store.{Written, refused, wrote, gives_evidence, or_else}
use concierge_agent.Memory.Tombstones.{Env}
use concierge_agent.Memory.Changes.{supersede}
use concierge_agent.Memory.Review.{
  MemoryPatch, Verdict, approve, reject, Patched, pin, edited, adjust, judged, patch, patch_row,
  is_new_text, is_reviewed, revision_of, put_field, reward, credit, cite, fields_of,
}
use concierge_agent.Memory.Sound.{IsRow, IsTable}
use concierge_agent.Memory.Sound.Touch.{
  Touches, AreTouched, map-AreTouched, same-Touches, AreTouched-IsTable,
}
use concierge_agent.Memory.Sound.Added.{not-false}
use concierge_agent.Memory.Sound.InPlace.{moved, not_superseded, if-Touches}
use concierge_agent.Memory.Sound.Replaced.{replace_seen-IsTable}

get-put_field :
    (fields : Fields) (v : Json)
    → get_field (put_field fields "last_cited_at" v) "evidence" ≡ get_field fields "evidence"
unfolding put_field get_field
get-put_field end v = refl
get-put_field (field j w rest) v =
    let later = get-put_field rest v in
    if-both (λ (f : Fields). get_field f "evidence" ≡ get_field (field j w rest) "evidence")
      (j == "last_cited_at") _ _ (λ hit. rw (==_eq j "last_cited_at" hit) refl)
      (λ miss. rw later refl)

put_field-evidence :
    (payload : Option Fields) (v : Json)
    → gives_evidence payload
      ≡ gives_evidence (some (put_field (fields_of payload) "last_cited_at" v))
unfolding fields_of put_field get_field truthy
put_field-evidence none v = refl
put_field-evidence (some fields) v = rw (get-put_field fields v) refl

credit-Touches :
    (parse : String → Option Instant) (print : Instant → String) (now : Instant) (m : Memory)
    → Touches m (credit parse print now m)
unfolding credit reward
credit-Touches parse print now m =
    if-both (Touches m) (m.source == "inferred" || _) _ _
      (λ a. record { core = refl; at = refl; by = refl; row = moved m _ refl refl refl refl })
      (λ a. record {
        core = refl;
        at = refl;
        by = refl;
        row = moved m _ refl refl (put_field-evidence m.payload _) refl;
      })

pub cite-AreTouched :
    (parse : String → Option Instant) (print : Instant → String) (now : Instant) (cited : List Uuid)
    (s : Store)
    → AreTouched s.memories (cite parse print now cited s).memories
unfolding cite
cite-AreTouched parse print now cited s =
    map-AreTouched _ s.memories
      (λ m at. if-Touches (contains m.id cited) m _ (λ hit. credit-Touches parse print now m))

pin-Touches : (id : Uuid) (pinned : Option Bool) (m : Memory) → Touches m (pin id pinned m)
pin-Touches id none m = same-Touches m
pin-Touches id (some b) m =
    if-Touches (m.id == id) m _
      (λ hit. record { core = refl; at = refl; by = refl; row = moved m _ refl refl refl refl })

-- A row is judged in quarantine only.
judged-Touches :
    (now : Instant) (remark : Option String) (verdict : Option Verdict) (b : Bool) (n : ℕ)
    (m : Memory)
    → (is_reviewed verdict && not (m.status == "quarantined")) ≡ false
    → Touches m (record (judged now remark verdict m) { pinned = b; importance = n })
unfolding judged is_reviewed
judged-Touches now remark none b n m h = record {
  core = refl;
  at = refl;
  by = refl;
  row = moved m _ refl refl refl refl;
}
judged-Touches now remark (some approve) b n m h = record {
  core = refl;
  at = refl;
  by = refl;
  row = moved m _ refl refl refl (not_superseded m.status "quarantined" refl (not-false _ h));
}
judged-Touches now remark (some reject) b n m h = record {
  core = refl;
  at = refl;
  by = refl;
  row = moved m _ refl refl refl (not_superseded m.status "quarantined" refl (not-false _ h));
}

adjust-Touches :
    (now : Instant) (body : MemoryPatch) (m : Memory)
    → (is_reviewed body.review && not (m.status == "quarantined")) ≡ false
    → Touches m (adjust now body m)
unfolding adjust
adjust-Touches now body m h = judged-Touches now body.review_note body.review _ _ m h

-- `session.get` gives the row with the id.
pub get_memory-IsIn :
    (id : Uuid) (rows : List Memory) (m : Memory)
    → get_memory id rows ≡ some m
    → IsIn m rows × (m.id ≡ id)
get_memory-IsIn id [] m h = absurd (some-ne m (sym h))
get_memory-IsIn id (x ∷ rows) m h = elim (Bool-cases (x.id == id)) [
  | inl hit ↦
      let e = some-inj x m (rw hit at h) in
      (inl (sym e), subst (λ (r : Memory). r.id ≡ id) e (==_eq x.id id hit))
  | inr miss ↦ let (old, name) = get_memory-IsIn id rows m (rw miss at h) in (inr old, name)
]

pub All-of_get :
    (id : Uuid) (rows : List Memory) (m : Memory)
    → get_memory id rows ≡ some m
    → All IsRow rows
    → IsRow m
All-of_get id rows m found each = All-IsIn IsRow rows m each ((get_memory-IsIn id rows m found).0)

edited-IsTable :
    (pinned : Option Bool) (o : Written × Store)
    → IsTable o.1.memories
    → IsTable ((edited pinned o).1).memories
unfolding edited
edited-IsTable pinned (refused e, s) t = t
edited-IsTable pinned (wrote new, s) t =
    AreTouched-IsTable s.memories _
      (map-AreTouched (pin new.id pinned) s.memories (λ m at. pin-Touches new.id pinned m)) t

patch_row-IsTable :
    (env : Env) (id : Uuid) (body : MemoryPatch) (row : Memory) (s : Store)
    → get_memory id s.memories ≡ some row
    → ¬ IsIn env.fresh (ids s.memories)
    → IsTable s.memories
    → IsTable ((patch_row env id body row s).1).memories
unfolding patch_row supersede
patch_row-IsTable env id body row s found fresh t =
    let P = λ (o : Patched × Store). IsTable o.1.memories in
    let (there, name) = get_memory-IsIn id s.memories row found in
    if-both P (is_new_text body.text row) _ _
      (λ a. edited-IsTable body.pinned _ (
        replace_seen-IsTable env (revision_of (or_else body.text row.text) body.importance) row s
          (All-IsIn IsRow s.memories row t.each there) fresh t))
      (λ a.
        if-both P (is_reviewed body.review && not (row.status == "quarantined")) _ _ (λ b. t)
          (λ calm.
            AreTouched-IsTable s.memories _
              (map-AreTouched _ s.memories (λ m at. if-Touches (m.id == id) m _ (λ hit.
                let same =
                  same_item (λ (r : Memory). r.id) s.memories row m t.distinct there at
                    (name ∙ sym (==_eq m.id id hit)) in
                adjust-Touches env.now body m (rw same at calm))))
              t))

pub patch-IsTable :
    (owns_row : Memory → Bool) (env : Env) (id : Uuid) (body : MemoryPatch) (s : Store)
    → ¬ IsIn env.fresh (ids s.memories)
    → IsTable s.memories
    → IsTable ((patch owns_row env id body s).1).memories
unfolding patch
patch-IsTable owns_row env id body s fresh t = elim (Option-cases (get_memory id s.memories)) [
  | inl missing ↦ rw (missing, patch) t
  | inr (row, found) ↦
      rw (found, patch)
        (if-both (λ (o : Patched × Store). IsTable o.1.memories) (owns_row row) _ _
          (λ a. patch_row-IsTable env id body row s found fresh t) (λ a. t))
]
