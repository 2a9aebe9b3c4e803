-- ===== src/Memory/Sound/InPlace.antt =====
-- The operations that add and remove no row touch the rows at most.
use concierge_agent.Prelude.{
  ℕ, ◌≡◌, refl, ap, String, Bool, true, false, ◌&&◌, List, [], ◌∷◌, inl, inr, if-both,
  if◌then◌else◌, ◌==◌, ==_eq, &&-true, string_eq, nat_eq, contains, contains-IsIn, any_where,
  option_eq,
}
use concierge_agent.Prelude.Clock.{Instant}
use concierge_agent.Memory.Rows.{Uuid, Memory, Store}
use concierge_agent.Memory.Store.{gives_evidence}
use concierge_agent.Memory.Changes.{is_retirable, retire, forget}
use concierge_agent.Memory.Sweeps.{
  is_decayed, expire, decay_sweep, is_contested, is_outranked, resolve, resolve_rows,
  contradiction_sweep,
}
use concierge_agent.Memory.Sound.{core_of, IsRow}
use concierge_agent.Memory.Sound.Touch.{
  Touches, AreTouched, map-AreTouched, same-Touches, same-AreTouched,
}

-- A row whose status moves among those that are not "superseded".
pub moved :
    (m n : Memory)
    → core_of m ≡ core_of n
    → m.superseded_at ≡ n.superseded_at
    → gives_evidence m.payload ≡ gives_evidence n.payload
    → (m.status == "superseded") ≡ (n.status == "superseded")
    → IsRow m
    → IsRow n
moved m n core at evidence status r = record {
  kind = rw (← ap (λ c. c.kind) core) r.kind;
  scope = rw (← ap (λ c. c.scope) core) r.scope;
  source = rw (← ap (λ c. c.source) core) r.source;
  stamp = rw (← at, ← status) r.stamp;
  origin = rw (← ap (λ c. c.source) core, ← ap (λ c. c.run_id) core, ← evidence) r.origin;
}

module _ (s : String) where
  pub not_superseded :
      (t : String) → (t == "superseded") ≡ false → (s == t) ≡ true → (s == "superseded") ≡ false
  not_superseded t h same = rw (==_eq s t same) h

  retirable_ne : contains s ("active" ∷ "quarantined" ∷ []) ≡ true → (s == "superseded") ≡ false
  retirable_ne h = elim (contains-IsIn s ("active" ∷ "quarantined" ∷ []) h) [
    | inl e ↦ rw e refl
    | inr (inl e) ↦ rw e refl
    | inr (inr at) ↦ absurd at
  ]

-- A conditional update touches the rows if the update does, where its test holds.
pub if-Touches :
    (b : Bool) (m n : Memory) → (b ≡ true → Touches m n) → Touches m (if b then n else m)
if-Touches b m n h = if-both (Touches m) b n m h (λ other. same-Touches m)

if-AreTouched :
    {A : Type 0} (b : Bool) (x y : A) (s t : Store)
    → AreTouched s.memories t.memories
    → AreTouched s.memories (if◌then◌else◌ {A = A × Store} b (x, t) (y, s)).1.memories
if-AreTouched {A} b x y s t h =
    if-both (λ (o : A × Store). AreTouched s.memories o.1.memories) b (x, t) (y, s) (λ on. h)
      (λ off. same-AreTouched s.memories)

retire-Touches : (id : Uuid) (now : Instant) (m : Memory) → Touches m (retire id now m)
retire-Touches id now m = if-Touches (is_retirable id m) m _ (λ hit. record {
  core = refl;
  at = refl;
  by = refl;
  row = moved m _ refl refl refl (retirable_ne m.status ((&&-true (m.id == id) _ hit).1));
})

pub forget-AreTouched :
    (id : Uuid) (now : Instant) (s : Store) → AreTouched s.memories ((forget id now s).1).memories
unfolding forget
forget-AreTouched id now s =
    if-AreTouched (any_where (is_retirable id) s.memories) true false s _
      (map-AreTouched (retire id now) s.memories (λ m at. retire-Touches id now m))

expire-Touches :
    (is_faint : ℕ → ℕ → ℕ → Bool) (default : ℕ) (now : Instant) (m : Memory)
    → Touches m (expire (is_decayed is_faint default now) now m)
unfolding is_decayed
expire-Touches is_faint default now m = if-Touches (is_decayed is_faint default now m) m _ (λ hit.
    record {
      core = refl;
      at = refl;
      by = refl;
      row =
          moved m _ refl refl refl
            (not_superseded m.status "active" refl ((&&-true _ _ ((&&-true _ _ hit).0)).0));
    })

pub decay_sweep-AreTouched :
    (is_faint : ℕ → ℕ → ℕ → Bool) (default : ℕ) (gate : Bool) (now : Instant) (s : Store)
    → AreTouched s.memories ((decay_sweep is_faint default gate now s).1).memories
unfolding decay_sweep
decay_sweep-AreTouched is_faint default gate now s =
    if-AreTouched gate _ 0 s _
      (map-AreTouched _ s.memories (λ m at. expire-Touches is_faint default now m))

resolve-Touches : (earlier later : List Memory) (m : Memory) → Touches m (resolve earlier later m)
unfolding resolve
resolve-Touches earlier later m =
    if-Touches (is_contested m && is_outranked earlier later m) m _ (λ hit. record {
      core = refl;
      at = refl;
      by = refl;
      row =
          moved m _ refl refl refl
            (not_superseded m.status "active" refl ((&&-true _ _ ((&&-true _ _ hit).0)).0));
    })

resolve_rows-AreTouched : (earlier rows : List Memory) → AreTouched rows (resolve_rows earlier rows)
unfolding resolve_rows
resolve_rows-AreTouched earlier [] = tt
resolve_rows-AreTouched earlier (m ∷ rows) =
    (resolve-Touches earlier rows m, resolve_rows-AreTouched (m ∷ earlier) rows)

pub contradiction_sweep-AreTouched :
    (gate : Bool) (s : Store) → AreTouched s.memories ((contradiction_sweep gate s).1).memories
unfolding contradiction_sweep
contradiction_sweep-AreTouched gate s =
    if-AreTouched gate _ 0 s _ (resolve_rows-AreTouched [] s.memories)
