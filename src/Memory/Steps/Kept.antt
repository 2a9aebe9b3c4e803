-- ===== src/Memory/Steps/Kept.antt =====
-- No operation but a user's erasure removes a row or rewrites what it says.
use concierge_agent.Prelude.{
  ℕ, ◌≡◌, refl, sym, subst, ◌∙◌, Bool, Option, none, some, List, ◌∷◌, map, IsIn, inl, inr, if-both,
  not, ◌&&◌, ◌==◌, ==_eq, option_eq, nat_eq, &&-true, Option-cases, some-ne, any_where, is_nil,
  IsIn-map_key, String, string_eq,
}
use concierge_agent.Prelude.Clock.{Instant}
use concierge_agent.Memory.Rows.{Uuid, Memory, Store, get_memory}
use concierge_agent.Memory.Store.{
  Note, Written, refused, wrote, refusal_of, new_memory, remember, insert_memory, assert_again,
  dangles, validate, is_machine, or_else,
}
use concierge_agent.Memory.Tombstones.{Env}
use concierge_agent.Memory.Changes.{Revision, replacement, is_open, close, replace_seen, supersede}
use concierge_agent.Memory.Review.{
  MemoryPatch, Verdict, approve, reject, Patched, pin, judged, edited, adjust, patch, patch_row,
  is_new_text, is_reviewed, revision_of,
}
use concierge_agent.Memory.Sound.{core_of}
use concierge_agent.Memory.Sound.Touch.{AreTouched, after}
use concierge_agent.Memory.Sound.InPlace.{
  forget-AreTouched, decay_sweep-AreTouched, contradiction_sweep-AreTouched,
}
use concierge_agent.Memory.Sound.Added.{assert_again-memories}
use concierge_agent.Memory.Sound.Reviewed.{cite-AreTouched}
use concierge_agent.Memory.Steps.{
  System, Step, reading, remembering, replacing, forgetting, patching, citing, decaying, sweeping,
  Reaches, at_rest, then_by,
}

-- The row says what it said, and if it was superseded it still is, by the same row.
pub record Continues (a b : Memory) : Type 0 where
  pub core : core_of a ≡ core_of b
  pub closed :
      (now : Instant)
      → a.superseded_at ≡ some now
      → (b.superseded_at ≡ some now) × (b.superseded_by ≡ a.superseded_by)

pub record IsKept (xs ys : List Memory) : Type 0 where
  pub find : (m : Memory) → IsIn m xs → (n : Memory) × IsIn n ys × Continues m n

same-Continues : (m : Memory) → Continues m m
same-Continues m = record { core = refl; closed = λ now e. (e, refl) }

same-IsKept : (rows : List Memory) → IsKept rows rows
same-IsKept rows = record { find = λ m at. (m, at, same-Continues m) }

AreTouched-IsKept : (xs ys : List Memory) → AreTouched xs ys → IsKept xs ys
AreTouched-IsKept xs ys h = record {
  find = λ m at.
      let (n, there, t) = after xs ys m h at in
      (n, there, record { core = t.core; closed = λ now e. (sym t.at ∙ e, sym t.by) });
}

keep_both : (xs ys zs : List Memory) → IsKept xs ys → IsKept ys zs → IsKept xs zs
keep_both xs ys zs h k = record {
  find = λ m at.
      let (n, there, c) = h.find m at in
      let (o, found, d) = k.find n there in
      (
        o,
        found,
        record {
          core = c.core ∙ d.core;
          closed = λ now e.
              let (at_n, by_n) = c.closed now e in
              let (at_o, by_o) = d.closed now at_n in (at_o, by_o ∙ by_n);
        },
      );
}

cons-IsKept : (row : Memory) (rows : List Memory) → IsKept rows (row ∷ rows)
cons-IsKept row rows = record { find = λ m at. (m, inr at, same-Continues m) }

close-Continues :
    (id by : Uuid) (now until : Instant) (m : Memory) → Continues m (close id by now until m)
close-Continues id by now until m =
    if-both (Continues m) (is_open id m) _ m
      (λ hit. record {
        core = refl;
        closed = λ at e.
            absurd
              (some-ne at (sym e ∙ ==_eq m.superseded_at none ((&&-true (m.id == id) _ hit).1)));
      })
      (λ other. same-Continues m)

map-IsKept :
    (f : Memory → Memory) (rows : List Memory)
    → ((m : Memory) → Continues m (f m))
    → IsKept rows (map f rows)
map-IsKept f rows h = record { find = λ m at. (f m, IsIn-map_key f m rows at, h m) }

replace_seen-IsKept :
    (env : Env) (r : Revision) (seen : Memory) (s : Store)
    → IsKept s.memories ((replace_seen env r seen s).1).memories
unfolding replace_seen
replace_seen-IsKept env r seen s =
    let P = λ (o : Written × Store). IsKept s.memories o.1.memories in
    let same = same-IsKept s.memories in
    let row = replacement env r seen in
    if-both P (not (seen.superseded_at == none)) _ _ (λ a. same)
      (λ b.
        if-both P (not (is_nil (validate seen.kind seen.scope r.source))) _ _ (λ a. same)
          (λ c.
            if-both P (is_machine r.source && r.run_id == none) _ _ (λ a. same)
              (λ d.
                if-both P (not (any_where (is_open seen.id) s.memories)) _ _ (λ a. same)
                  (λ e.
                    keep_both s.memories
                      (map (close seen.id row.id env.now row.valid_from) s.memories) _
                      (map-IsKept _ s.memories
                        (close-Continues seen.id row.id env.now row.valid_from))
                      (cons-IsKept row _)))))

remember-IsKept :
    (env : Env) (n : Note) (s : Store) → IsKept s.memories ((remember env n s).1).memories
unfolding remember
remember-IsKept env n s = elim (Option-cases (refusal_of n)) [
  | inr (e, bad) ↦ rw (bad, remember) (same-IsKept s.memories)
  | inl fine ↦
      rw (fine, remember)
        (subst
          (λ rows.
            IsKept rows ((insert_memory env (new_memory env n) (assert_again env n s)).1).memories)
          (assert_again-memories env n s)
          (if-both (λ (o : Written × Store). IsKept (assert_again env n s).memories o.1.memories)
            (dangles n.supersedes (assert_again env n s).memories) _ _ (λ a. same-IsKept _)
            (λ a. cons-IsKept (new_memory env n) _)))
]

pin-Continues : (id : Uuid) (pinned : Option Bool) (m : Memory) → Continues m (pin id pinned m)
pin-Continues id none m = same-Continues m
pin-Continues id (some b) m =
    if-both (Continues m) (m.id == id) _ m
      (λ hit. record { core = refl; closed = λ now e. (e, refl) }) (λ a. same-Continues m)

edited-IsKept :
    (pinned : Option Bool) (rows : List Memory) (o : Written × Store)
    → IsKept rows o.1.memories
    → IsKept rows ((edited pinned o).1).memories
unfolding edited
edited-IsKept pinned rows (refused e, s) h = h
edited-IsKept pinned rows (wrote new, s) h =
    keep_both rows s.memories _ h (map-IsKept _ s.memories (pin-Continues new.id pinned))

judged-Continues :
    (now : Instant) (remark : Option String) (verdict : Option Verdict) (b : Bool) (n : ℕ)
    (m : Memory)
    → Continues m (record (judged now remark verdict m) { pinned = b; importance = n })
unfolding judged
judged-Continues now remark none b n m = record { core = refl; closed = λ at e. (e, refl) }
judged-Continues now remark (some approve) b n m = record {
  core = refl;
  closed = λ at e. (e, refl);
}
judged-Continues now remark (some reject) b n m = record { core = refl; closed = λ at e. (e, refl) }

patch_row-IsKept :
    (env : Env) (id : Uuid) (body : MemoryPatch) (row : Memory) (s : Store)
    → IsKept s.memories ((patch_row env id body row s).1).memories
unfolding patch_row supersede adjust
patch_row-IsKept env id body row s =
    let P = λ (o : Patched × Store). IsKept s.memories o.1.memories in
    if-both P (is_new_text body.text row) _ _
      (λ a.
        edited-IsKept body.pinned s.memories _ (
          replace_seen-IsKept env (revision_of (or_else body.text row.text) body.importance) row s))
      (λ a.
        if-both P (is_reviewed body.review && not (row.status == "quarantined")) _ _
          (λ b. same-IsKept s.memories)
          (λ b. map-IsKept _ s.memories (λ m.
            if-both (Continues m) (m.id == id) _ m
              (λ c. judged-Continues env.now body.review_note body.review _ _ m)
              (λ c. same-Continues m))))

patch-IsKept :
    (owns_row : Memory → Bool) (env : Env) (id : Uuid) (body : MemoryPatch) (s : Store)
    → IsKept s.memories ((patch owns_row env id body s).1).memories
unfolding patch
patch-IsKept owns_row env id body s = elim (Option-cases (get_memory id s.memories)) [
  | inl missing ↦ rw (missing, patch) (same-IsKept s.memories)
  | inr (row, found) ↦
      rw (found, patch)
        (if-both (λ (o : Patched × Store). IsKept s.memories o.1.memories) (owns_row row) _ _
          (λ a. patch_row-IsKept env id body row s) (λ a. same-IsKept s.memories))
]

Step-IsKept : (s t : System) → Step s t → IsKept s.store.memories t.store.memories
Step-IsKept s t (reading id m found) = same-IsKept _
Step-IsKept s t (remembering env n fresh) = remember-IsKept env n s.store
Step-IsKept s t (replacing env r seen at fresh) = replace_seen-IsKept env r seen s.store
Step-IsKept s t (forgetting id now) = AreTouched-IsKept _ _ (forget-AreTouched id now s.store)
Step-IsKept s t (patching owns_row env id body fresh) = patch-IsKept owns_row env id body s.store
Step-IsKept s t (citing parse print now cited) =
    AreTouched-IsKept _ _ (cite-AreTouched parse print now cited s.store)
Step-IsKept s t (decaying is_faint span gate now) =
    AreTouched-IsKept _ _ (decay_sweep-AreTouched is_faint span gate now s.store)
Step-IsKept s t (sweeping gate) =
    AreTouched-IsKept _ _ (contradiction_sweep-AreTouched gate s.store)

-- However many operations follow, short of an erasure: each row of the table is still there, with
-- its words, its source and the times since when it is valid and recorded, and a row that was
-- superseded stays so, by the same row.
pub reached-IsKept : (s t : System) → Reaches Step s t → IsKept s.store.memories t.store.memories
reached-IsKept s t at_rest = same-IsKept s.store.memories
reached-IsKept s t (then_by {t = m} past a) =
    keep_both _ m.store.memories _ (reached-IsKept s m past) (Step-IsKept m t a)
