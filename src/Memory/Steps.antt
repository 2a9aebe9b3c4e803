-- ===== src/Memory/Steps.antt =====
-- Whatever the processes do to the memories, in whatever order: each operation is a step. A row
-- that a session has read may be replaced later, when the table is another.
pub mod Reached
pub mod Kept
use concierge_agent.Prelude.{ℕ, ◌≡◌, String, Bool, Option, some, List, ◌∷◌, IsIn}
use concierge_agent.Prelude.Clock.{Instant}
use concierge_agent.Memory.Rows.{Uuid, Memory, Store, ids, get_memory}
use concierge_agent.Memory.Store.{Note, remember}
use concierge_agent.Memory.Tombstones.{Env}
use concierge_agent.Memory.Changes.{Revision, replace_seen, forget, hard_delete, tombstone_forget}
use concierge_agent.Memory.Sweeps.{decay_sweep, contradiction_sweep}
use concierge_agent.Memory.Review.{MemoryPatch, patch, cite}

-- The tables, and the rows that sessions have read.
pub record System : Type 0 where
  pub store : Store
  pub read : List Memory

abbrev pub put_store : System → Store → System
put_store s store = record s { store = store }

-- A new row has an id of its own.
abbrev pub IsFresh : Env → System → Type 0
IsFresh env s = ¬ IsIn env.fresh (ids s.store.memories)

pub data Step (s : System) : System → Type 0 where
  reading :
      (id : Uuid) (m : Memory)
      → get_memory id s.store.memories ≡ some m
      → Step s (record s { read = m ∷ s.read })
  remembering :
      (env : Env) (n : Note) → IsFresh env s → Step s (put_store s ((remember env n s.store).1))
  replacing :
      (env : Env) (r : Revision) (seen : Memory)
      → IsIn seen s.read
      → IsFresh env s
      → Step s (put_store s ((replace_seen env r seen s.store).1))
  forgetting : (id : Uuid) (now : Instant) → Step s (put_store s ((forget id now s.store).1))
  patching :
      (owns_row : Memory → Bool) (env : Env) (id : Uuid) (body : MemoryPatch)
      → IsFresh env s
      → Step s (put_store s ((patch owns_row env id body s.store).1))
  citing :
      (parse : String → Option Instant) (print : Instant → String) (now : Instant)
      (cited : List Uuid)
      → Step s (put_store s (cite parse print now cited s.store))
  decaying :
      (is_faint : ℕ → ℕ → ℕ → Bool) (half_life : ℕ) (gate : Bool) (now : Instant)
      → Step s (put_store s ((decay_sweep is_faint half_life gate now s.store).1))
  sweeping : (gate : Bool) → Step s (put_store s ((contradiction_sweep gate s.store).1))

-- A step of a pipeline or of a review, or a user's erasure.
pub data Action (s : System) : System → Type 0 where
  step : {t : System} → Step s t → Action s t
  erasing : (id : Uuid) → Action s (put_store s ((hard_delete id s.store).1))
  tombstoning :
      (env : Env) (id : Uuid) → Action s (put_store s ((tombstone_forget env id s.store).1))

pub data Reaches (R : System → System → Type 0) (s : System) : System → Type 0 where
  at_rest : Reaches R s s
  then_by : {t u : System} → Reaches R s t → R t u → Reaches R s u
