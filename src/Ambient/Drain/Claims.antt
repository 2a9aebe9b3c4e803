-- ===== src/Ambient/Drain/Claims.antt =====
-- Claims of two drains (backend/app/ambient/drain.py).
use mathlib.Core.Bool.{true≢false}
use concierge_agent.Prelude.{
  ℕ, zero, suc, ◌+◌, ◌<◌, ◌≡◌, sym, subst, ◌∙◌, inl, inr, true, false, not, List, [], ◌∷◌, arith,
  if-both, ltb, nat_eq, string_eq, option_eq, contains, select, IsIn, IsIn-select, map_key-IsIn,
  IsIn-contains, All, All-IsIn,
}
use concierge_agent.Prelude.Clock.{Instant, seconds}
use concierge_agent.Ambient.Events.{Uuid}
use concierge_agent.Ambient.Deliver.Rows.{IsIn-order_by}
use concierge_agent.Ambient.Drain.{
  Row, reclaim_after_s, is_claimable, first, claimed_ids, mark_claimed, claim,
}

IsIn-first : (n : ℕ) (r : Row) (rows : List Row) → IsIn r (first n rows) → IsIn r rows
IsIn-first zero r rows at = absurd at
IsIn-first (suc n) r [] at = absurd at
IsIn-first (suc n) r (x ∷ xs) (inl e) = inl e
IsIn-first (suc n) r (x ∷ xs) (inr at) = inr (IsIn-first n r xs at)

-- A row that was claimed a short time ago cannot be claimed.
mark_claimed-held :
    (now later : Instant) (ids : List Uuid) (table : List Row)
    → later < now + seconds reclaim_after_s
    → All
        (λ (r : Row). contains r.id ids ≡ true → is_claimable later r ≡ false)
        (mark_claimed now ids table)
unfolding mark_claimed is_claimable
mark_claimed-held now later ids [] soon = tt
mark_claimed-held now later ids (r ∷ rest) soon = (
  if-both (λ (x : Row). contains x.id ids ≡ true → is_claimable later x ≡ false) (contains r.id ids)
      _ r (λ e f. ground (arith, soon)) (λ e f. absurd (true≢false (sym f ∙ e))),
  mark_claimed-held now later ids rest soon,
)

-- Two claims, one after the other and within ten minutes, take no event twice.
pub claims_differ :
    (now later : Instant) (m n : ℕ) (table : List Row) (id : Uuid)
    → later < now + seconds reclaim_after_s
    → IsIn id (claim now m table).0
    → ¬ (IsIn id (claim later n (claim now m table).1).0)
unfolding claim claimed_ids
claims_differ now later m n table id soon at again =
    let ids = (claim now m table).0 in
    let marked = (claim now m table).1 in
    let before = λ (p : Row) (q : Row). not (ltb q.received_at p.received_at) in
    let (r, there, e) = map_key-IsIn (λ (x : Row). x.id) id _ again in
    let (inside, ok) =
      IsIn-select (is_claimable later) r marked
        (IsIn-order_by before r (select (is_claimable later) marked) (IsIn-first n r _ there)) in
    let held =
      All-IsIn (λ (x : Row). contains x.id ids ≡ true → is_claimable later x ≡ false) marked r
        (mark_claimed-held now later ids table soon) inside in
    absurd
      (true≢false (sym ok ∙ held (subst (λ x. contains x ids ≡ true) e (IsIn-contains id ids at))))
