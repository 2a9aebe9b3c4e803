-- ===== src/Memory/Tests.antt =====
-- The memory at a few rows (backend/app/memory).
use concierge_agent.Prelude.{
  ℕ, ◌+◌, ◌≡◌, refl, String, Bool, true, false, none, some, [], ◌∷◌, map, inl, inr, IsIn, arith,
  nat_eq,
}
use concierge_agent.Prelude.Clock.{hours}
use concierge_agent.Prelude.Text.{codes}
use concierge_agent.Memory.Words.{normalize}
use concierge_agent.Memory.Tokens.{Unicode, normalized_hash, distinctive_token_hashes}
use concierge_agent.Memory.Rows.{Memory, Store, get_memory}
use concierge_agent.Memory.Tombstones.{Env}
use concierge_agent.Memory.Store.{Note, refused, new_memory, remember, provenance_missing}
use concierge_agent.Memory.Changes.{Revision, is_open, replace_seen, tombstone_forget}
use concierge_agent.Memory.Sweeps.{contradiction_sweep}
use concierge_agent.Memory.Sweeps.Survivors.{IsSwept, contradiction_sweep-IsSwept}
use concierge_agent.Memory.Sound.{IsTable}
use concierge_agent.Memory.Steps.{
  System, Step, Action, Reaches, at_rest, then_by, step, reading, remembering, replacing,
  tombstoning, put_store,
}
use concierge_agent.Memory.Steps.Reached.{IsSystem, reached-IsTable}
use concierge_agent.Memory.Steps.Kept.{IsKept, reached-IsKept}
use concierge_agent.Memory.Extract.{Extraction, reconcile_and_write, extract}
use concierge_agent.Memory.Extract.Suppressed.{forgotten_stays}
use concierge_agent.Memory.Past.{believed, IsShown, supersede_keeps_past}

abbrev latin : Unicode
latin = record { lower = λ t. t; sha256 = λ t. t }

-- A call at a time that makes a row with an id.
abbrev at_with : Bool → ℕ → ℕ → Env
at_with on now id = record {
  unicode = latin;
  now = hours now;
  db_now = hours now;
  fresh = id;
  requester = some 7;
  quarantine_kinds = [];
  forget_enabled = on;
  forget_similarity = 850000;
  active_model_key = none;
  nearest = λ t table. [];
  embedded = none;
}

abbrev say : String → Note
say text = record {
  text = codes text;
  kind = "fact";
  scope = "global";
  source = "user_stated";
  conversation_id = none;
  payload = none;
  entity_key = some "editor";
  importance = 5;
  confidence = 700000;
  valid_from = none;
  run_id = none;
  step_id = none;
  supersedes = none;
  via_tool = false;
  project_key = none;
  user_id = none;
}

abbrev correct : String → Revision
correct text = record {
  text = codes text;
  source = "user_edited";
  run_id = none;
  step_id = none;
  payload = none;
  importance = none;
  confidence = none;
  valid_from = none;
}

abbrev empty : Store
empty = record { memories = []; tombstones = []; embeddings = [] }

abbrev vim : Memory
vim = new_memory (at_with true 1 1) (say "vim")

words_are_joined : normalize (codes " the editor  is vim ") ≡ codes "the editor is vim"
unfolding normalize
words_are_joined = refl

tokens :
    distinctive_token_hashes latin (codes "see build-7. at the longestword")
    ≡ codes "build-7" ∷ codes "longestword" ∷ []
unfolding distinctive_token_hashes normalize
tokens = refl

machine_needs_run :
    (remember (at_with true 1 1) (record (say "vim") { source = "extracted" }) empty).0
    ≡ refused provenance_missing
unfolding remember
machine_needs_run = refl

abbrev start : System
start = record { store = empty; read = [] }

start-IsSystem : IsSystem start
start-IsSystem = record {
  table = record { distinct = tt; each = tt; linked = λ m at. absurd at };
  read = tt;
}

abbrev first : System
first = put_store start ((remember (at_with true 1 1) (say "vim") empty).1)

abbrev seen : System
seen = record first { read = vim ∷ [] }

abbrev second : System
second = put_store seen ((replace_seen (at_with true 2 2) (correct "emacs") vim first.store).1)

fresh_second : ¬ IsIn 2 (map (λ m. m.id) first.store.memories)
unfolding remember
fresh_second = λ at. elim at [ inl e ↦ absurd (omega arith) | inr none_left ↦ absurd none_left ]

edits : Reaches Step first second
unfolding remember
edits =
    then_by {t = seen} (then_by at_rest (reading 1 vim refl))
      (replacing (at_with true 2 2) (correct "emacs") vim (inl refl) fresh_second)

reached-IsKept_example : IsKept first.store.memories second.store.memories
reached-IsKept_example = reached-IsKept first second edits

-- The first row is erased after it was replaced.
abbrev third : System
third = put_store second ((tombstone_forget (at_with true 3 9) 1 second.store).1)

erasure : Reaches Action start third
unfolding remember
erasure =
    then_by {t = second}
      (then_by {t = seen}
        (then_by {t = first}
          (then_by at_rest (step (remembering (at_with true 1 1) (say "vim") (λ at. at))))
          (step (reading 1 vim refl)))
        (step (replacing (at_with true 2 2) (correct "emacs") vim (inl refl) fresh_second)))
      (tombstoning (at_with true 3 9) 1)

reached-IsTable_example : IsTable third.store.memories
reached-IsTable_example = reached-IsTable start third erasure start-IsSystem

-- Two rows with one key, of which the second in the table is the newer.
abbrev rivals : Store
rivals = record empty { memories = vim ∷ new_memory (at_with true 4 2) (say "emacs") ∷ [] }

newer_stays :
    map (λ m. m.status) ((contradiction_sweep true rivals).1).memories
    ≡ "quarantined" ∷ "active" ∷ []
unfolding contradiction_sweep new_memory
newer_stays = refl

contradiction_sweep-IsSwept_example :
    IsSwept rivals.memories ((contradiction_sweep true rivals).1).memories
contradiction_sweep-IsSwept_example = contradiction_sweep-IsSwept rivals

abbrev told : Extraction
told = record {
  env = at_with true 5 3;
  candidate = record {
    text = codes " vim";
    kind = "fact";
    scope = "global";
    conversation_id = none;
    payload = none;
    entity_key = none;
    importance = 5;
    confidence = 900000;
  };
  run_id = 40;
  neighbors = [];
  verdicts = [];
}

vim_is_found : get_memory 1 first.store.memories ≡ some vim
unfolding remember
vim_is_found = refl

same_hash : normalized_hash latin (codes " vim") ≡ normalized_hash latin vim.text
unfolding new_memory normalize
same_hash = refl

global_scope : told.candidate.scope ≡ vim.scope
unfolding new_memory
global_scope = refl

same_user : told.env.requester ≡ vim.user_id
unfolding new_memory
same_user = refl

forgotten_stays_example :
    let t = (extract (told ∷ []) ((tombstone_forget (at_with true 3 9) 1 first.store).1)).1 in
    ((reconcile_and_write told t).0 ≡ none)
    × (((reconcile_and_write told t).1).memories ≡ t.memories)
forgotten_stays_example =
    forgotten_stays (at_with true 3 9) 1 vim first.store (told ∷ []) told vim_is_found refl
      same_hash global_scope same_user

vim_has_no_end : (m : Memory) → IsIn m first.store.memories → is_open vim.id m ≡ true → IsShown m
unfolding remember
vim_has_no_end m (inl e) shown = rw e (refl, refl)
vim_has_no_end m (inr at) shown = absurd at

supersede_keeps_past_example :
    believed
      (hours 1 + 1)
      ((replace_seen (at_with true 2 2) (correct "emacs") vim first.store).1).memories
    ≡ believed (hours 1 + 1) first.store.memories
supersede_keeps_past_example =
    supersede_keeps_past (at_with true 2 2) (correct "emacs") vim first.store (hours 1 + 1)
      (omega arith) (omega arith) refl vim_has_no_end

vim_was_believed : believed (hours 1 + 1) first.store.memories ≡ 1 ∷ []
unfolding remember believed
vim_was_believed = refl
