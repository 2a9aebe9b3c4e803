-- ===== src/Memory/Sound/Maps.antt =====
-- Rows that are mapped without a change of their ids (UPDATE memories SET ..., in
-- backend/app/memory/store.py).
use concierge_agent.Prelude.{◌≡◌, refl, ap, List, [], ◌∷◌, map, IsIn, inl, inr, All, AreDistinctBy}
use concierge_agent.Memory.Rows.{Memory, ids}
use concierge_agent.Memory.Sound.{IsRow}

module _ (f : Memory → Memory) (same : (m : Memory) → (f m).id ≡ m.id) where
  pub map-ids : (rows : List Memory) → ids (map f rows) ≡ ids rows
  map-ids [] = refl
  map-ids (m ∷ rows) = cc (same m, map-ids rows)

  pub map-AreDistinctBy :
      (rows : List Memory) → AreDistinctBy (λ m. m.id) rows → AreDistinctBy (λ m. m.id) (map f rows)
  map-AreDistinctBy [] d = tt
  map-AreDistinctBy (m ∷ rows) d =
      (λ at. d.0 (rw (same m, map-ids rows) at at), map-AreDistinctBy rows d.1)

  pub map-All :
      (rows : List Memory)
      → ((m : Memory) → IsRow m → IsRow (f m))
      → All IsRow rows
      → All IsRow (map f rows)
  map-All [] h k = tt
  map-All (m ∷ rows) h k = (h m k.0, map-All rows h k.1)

  pub IsIn-map : (m : Memory) (rows : List Memory) → IsIn m rows → IsIn (f m) (map f rows)
  IsIn-map m [] at = absurd at
  IsIn-map m (x ∷ rows) (inl e) = inl (ap f e)
  IsIn-map m (x ∷ rows) (inr at) = inr (IsIn-map m rows at)

  pub map-IsIn :
      (n : Memory) (rows : List Memory)
      → IsIn n (map f rows)
      → (m : Memory) × IsIn m rows × (n ≡ f m)
  map-IsIn n [] at = absurd at
  map-IsIn n (x ∷ rows) (inl e) = (x, inl refl, e)
  map-IsIn n (x ∷ rows) (inr at) = let (m, old, e) = map-IsIn n rows at in (m, inr old, e)
