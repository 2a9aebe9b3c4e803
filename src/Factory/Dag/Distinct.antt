-- ===== src/Factory/Dag/Distinct.antt =====
-- The test for repeated node ids (backend/app/factory/dag.py).
use concierge_agent.Prelude.{
  ◌≡◌, ◌↔◌, inl, inr, refl, subst, String, List, [], ◌∷◌, IsIn, Bool-cases, contains, contains-IsIn,
  IsIn-contains, string_eq,
}
use concierge_agent.Factory.Dag.Errors.{duplicate_id, when-append-nil, when-false}
use concierge_agent.Factory.Dag.Nodes.{duplicate_errors}

-- The items of a list are distinct.
abbrev pub IsDistinct : List String → Type 0
IsDistinct [] = Unit
IsDistinct (x ∷ xs) = ¬ (IsIn x xs) × IsDistinct xs

-- What `seen` holds already may not come again.
abbrev AreNew : List String → List String → Type 0
AreNew seen [] = Unit
AreNew seen (x ∷ xs) = ¬ (IsIn x seen) × AreNew (x ∷ seen) xs

duplicate_errors-AreNew :
    (seen ids : List String) → (duplicate_errors seen ids ≡ []) ↔ AreNew seen ids
unfolding duplicate_errors
duplicate_errors-AreNew seen [] = (λ h. tt, λ h. refl)
duplicate_errors-AreNew seen (x ∷ xs) =
    let ih = duplicate_errors-AreNew (x ∷ seen) xs in
    (
      λ h.
          let (free, rest) =
            when-append-nil (contains x seen) (duplicate_id x) (duplicate_errors (x ∷ seen) xs) h in
          (λ at. cc (free, IsIn-contains x seen at), ih.0 rest),
      λ h. elim (Bool-cases (contains x seen)) [
        | inl met ↦ absurd (h.0 (contains-IsIn x seen met))
        | inr free ↦ rw (when-false (contains x seen) (duplicate_id x) free) (ih.1 h.1)
      ],
    )

AreNew-IsDistinct :
    (seen ids : List String)
    → AreNew seen ids ↔ (IsDistinct ids × ((x : String) → IsIn x ids → ¬ (IsIn x seen)))
AreNew-IsDistinct seen [] = (λ h. (tt, λ x at. absurd at), λ h. tt)
AreNew-IsDistinct seen (x ∷ xs) =
    let ih = AreNew-IsDistinct (x ∷ seen) xs in
    (
      λ h.
          let (apart, clear) = ih.0 h.1 in
          (
            (λ at. clear x at (inl refl), apart),
            λ y at. elim at [ inl e ↦ rw e h.0 | inr behind ↦ λ met. clear y behind (inr met) ],
          ),
      λ h. (
        h.1 x (inl refl),
        ih.1 (
          h.0.1,
          λ y at met. elim met [
            | inl e ↦ h.0.0 (subst (λ z. IsIn z xs) e at)
            | inr old ↦ h.1 y (inr at) old
          ],
        ),
      ),
    )

-- The test is silent exactly on distinct ids.
pub duplicate_errors_iff : (ids : List String) → (duplicate_errors [] ids ≡ []) ↔ IsDistinct ids
duplicate_errors_iff ids =
    let new = duplicate_errors-AreNew [] ids in
    let apart = AreNew-IsDistinct [] ids in
    (λ h. (apart.0 (new.0 h)).0, λ h. new.1 (apart.1 (h, λ x at met. met)))
