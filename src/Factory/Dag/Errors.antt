-- ===== src/Factory/Dag/Errors.antt =====
-- The messages of `validate_workflow` (backend/app/factory/dag.py), a constructor for each, with the
-- values that the message quotes; and the way in which its parts end.
use concierge_agent.Prelude.{
  ℕ, String, ◌≡◌, ◌≢◌, refl, Bool, true, false, List, [], ◌∷◌, ◌++◌, nil_of_append, if◌then◌else◌,
}
use concierge_agent.Factory.Json.{Key}

pub data DagError : Type 0 where
  not_an_object no_nodes no_edges node_needs_id edge_needs_ends : DagError
  bad_type skill_needs_id hitl_needs_prompt bad_questions : String → DagError
  unresolved_skill : String → String → DagError
  question_needs_id question_ids_repeat : String → DagError
  bad_kind few_options bad_options repeated_options : String → String → DagError
  reserved_end reserved_shape duplicate_id : String → DagError
  bad_outcome : Key → Key → DagError
  unknown_node : Key → DagError
  leaves_end enters_start : DagError
  start_edge_count : ℕ → DagError
  error_edges : Key → ℕ → DagError
  has_a_cycle no_path : DagError

-- A value; the TypeError of hashing a list or a dictionary; or a bounded loop cut short.
pub data Py {ℓ} (A : Type ℓ) : Type ℓ where
  ret : A → Py A
  type_error out_of_rounds : Py A

infixl 5 ◌>>=◌
abbrev pub ◌>>=◌ {ℓ κ} : {A : Type ℓ} {B : Type κ} → Py A → (A → Py B) → Py B
ret a >>= f = f a
type_error >>= f = type_error
out_of_rounds >>= f = out_of_rounds

-- `errors.append(e)` under a test.
unfoldable pub when : Bool → DagError → List DagError
when true e = e ∷ []
when false e = []

pub when-nil : (b : Bool) (e : DagError) → when b e ≡ [] → b ≡ false
unfolding when
when-nil true e h = cc
when-nil false e h = refl

pub when-false : (b : Bool) (e : DagError) → b ≡ false → when b e ≡ []
unfolding when
when-false b e h = rw h

-- Of two messages under tests none is there.
pub when-append-nil :
    (b : Bool) (e : DagError) (rest : List DagError)
    → when b e ++ rest ≡ []
    → (b ≡ false) × (rest ≡ [])
when-append-nil b e rest h =
    let (first, second) = nil_of_append (when b e) rest h in (when-nil b e first, second)

-- Inversion of a bind that returns.
pub >>=-eq-ret {ℓ κ} :
    {A : Type ℓ} {B : Type κ} (m : Py A) (f : A → Py B) {b : B}
    → (m >>= f) ≡ ret b
    → (a : A) × (m ≡ ret a) × (f a ≡ ret b)
>>=-eq-ret (ret a) f h = (a, refl, h)
>>=-eq-ret type_error f h = cc
>>=-eq-ret out_of_rounds f h = cc

pub ret-inj {ℓ} : {A : Type ℓ} (a b : A) → ◌≡◌ {A = Py A} (ret a) (ret b) → a ≡ b
ret-inj a b h = cc

-- No bounded loop was cut short.
pub record Ends {ℓ} {A : Type ℓ} (r : Py A) : Type ℓ where
  pub apply : r ≢ out_of_rounds

pub ret-Ends {ℓ} : {A : Type ℓ} (a : A) → Ends (ret a)
ret-Ends a = record { apply = λ h. cc }

pub >>=-Ends {ℓ} :
    {A B : Type ℓ} (m : Py A) (f : A → Py B) → Ends m → ((a : A) → Ends (f a)) → Ends (m >>= f)
>>=-Ends (ret a) f h k = k a
>>=-Ends type_error f h k = record { apply = λ e. cc }
>>=-Ends out_of_rounds f h k = absurd (h.apply refl)

pub if-Ends {ℓ} : {A : Type ℓ} (b : Bool) (m n : Py A) → Ends m → Ends n → Ends (if b then m else n)
if-Ends true m n h k = h
if-Ends false m n h k = k

pub ruleset ends_rules = (ret-Ends, >>=-Ends, if-Ends)
