-- ===== src/Memory/Extract/Suppressed.antt =====
-- What a user forgot is not learnt again.
use concierge_agent.Prelude.{
  ◌≡◌, refl, String, Bool, true, Option, none, some, List, [], ◌∷◌, if-both, ◌==◌, ==_refl, nat_eq,
  string_eq, option_eq, list_eq, any_where,
}
use concierge_agent.Memory.Words.{Text}
use concierge_agent.Memory.Tokens.{normalized_hash}
use concierge_agent.Memory.Rows.{Uuid, Memory, Store, get_memory}
use concierge_agent.Memory.Tombstones.{Env, check_suppressed}
use concierge_agent.Memory.Store.{Written}
use concierge_agent.Memory.Changes.{hard_delete, tombstone_forget}
use concierge_agent.Memory.Extract.{Extraction, with_tombstones, reconcile_and_write, extract}
use concierge_agent.Memory.Extract.Forgotten.{
  has_tombstone, check_suppressed-true, check_suppressed-keeps, write_candidate-tombstones,
}

module _ (hash : Text) (scope : String) (user : Option Uuid) where
  reconcile-keeps :
      (x : Extraction) (s : Store)
      → has_tombstone hash scope user s.tombstones ≡ true
      → has_tombstone hash scope user ((reconcile_and_write x s).1).tombstones ≡ true
  unfolding reconcile_and_write
  reconcile-keeps x s h =
      let c = x.candidate in
      let kept =
        check_suppressed-keeps hash scope user x.env c.text c.scope x.env.requester s.tombstones
          h in
      if-both (λ (o : Option Written × Store). has_tombstone hash scope user o.1.tombstones ≡ true)
        ((check_suppressed x.env c.text c.scope x.env.requester s.tombstones).0) _ _ (λ a. kept)
        (λ a. rw (write_candidate-tombstones x (with_tombstones x s)) kept)

  extract-keeps :
      (xs : List Extraction) (s : Store)
      → has_tombstone hash scope user s.tombstones ≡ true
      → has_tombstone hash scope user ((extract xs s).1).tombstones ≡ true
  unfolding extract
  extract-keeps [] s h = h
  extract-keeps (x ∷ xs) s h =
      extract-keeps xs ((reconcile_and_write x s).1) (reconcile-keeps x s h)

reconcile-none :
    (x : Extraction) (s : Store)
    → (check_suppressed x.env x.candidate.text x.candidate.scope x.env.requester s.tombstones).0
      ≡ true
    → ((reconcile_and_write x s).0 ≡ none) × (((reconcile_and_write x s).1).memories ≡ s.memories)
unfolding reconcile_and_write
reconcile-none x s h = rw (h, reconcile_and_write) (refl, refl)

hard_delete-tombstones : (id : Uuid) (s : Store) → ((hard_delete id s).1).tombstones ≡ s.tombstones
unfolding hard_delete
hard_delete-tombstones id s =
    if-both (λ (o : Bool × Store). o.1.tombstones ≡ s.tombstones)
      (any_where (λ m. m.id == id) s.memories) _ _ (λ a. refl) (λ a. refl)

tombstone_forget-leaves :
    (env : Env) (id : Uuid) (row : Memory) (s : Store)
    → get_memory id s.memories ≡ some row
    → has_tombstone
        (normalized_hash env.unicode row.text)
        row.scope
        row.user_id
        ((tombstone_forget env id s).1).tombstones
      ≡ true
unfolding tombstone_forget
tombstone_forget-leaves env id row s found =
    rw (found, tombstone_forget)
      (rw (hard_delete-tombstones id _) (
        rw (==_refl (normalized_hash env.unicode row.text), ==_refl row.scope, ==_refl row.user_id)
          refl))

-- A row that was forgotten leaves a tombstone: whatever is extracted then, however often, a
-- candidate whose words in lower case have the hash of the row's, with the scope of the row and its
-- user as the requester, is passed over, and the memories stay as they are, while forgetting is
-- switched on.
pub forgotten_stays :
    (env : Env) (id : Uuid) (row : Memory) (s : Store) (xs : List Extraction) (x : Extraction)
    → get_memory id s.memories ≡ some row
    → x.env.forget_enabled ≡ true
    → normalized_hash x.env.unicode x.candidate.text ≡ normalized_hash env.unicode row.text
    → x.candidate.scope ≡ row.scope
    → x.env.requester ≡ row.user_id
    → let t = (extract xs ((tombstone_forget env id s).1)).1 in
      ((reconcile_and_write x t).0 ≡ none) × (((reconcile_and_write x t).1).memories ≡ t.memories)
forgotten_stays env id row s xs x found on hash scope user =
    let t = (extract xs ((tombstone_forget env id s).1)).1 in
    let kept =
      extract-keeps (normalized_hash env.unicode row.text) row.scope row.user_id xs
        ((tombstone_forget env id s).1) (tombstone_forget-leaves env id row s found) in
    reconcile-none x t (
      check_suppressed-true x.env x.candidate.text x.candidate.scope x.env.requester t.tombstones on
        (rw (hash, scope, user) kept))
