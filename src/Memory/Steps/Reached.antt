-- ===== src/Memory/Steps/Reached.antt =====
-- Whatever is reached is sound.
use concierge_agent.Prelude.{All, All-IsIn}
use concierge_agent.Memory.Sound.{IsRow, IsTable}
use concierge_agent.Memory.Sound.Touch.{AreTouched-IsTable}
use concierge_agent.Memory.Sound.InPlace.{
  forget-AreTouched, decay_sweep-AreTouched, contradiction_sweep-AreTouched,
}
use concierge_agent.Memory.Sound.Added.{remember-IsTable}
use concierge_agent.Memory.Sound.Replaced.{replace_seen-IsTable}
use concierge_agent.Memory.Sound.Removed.{hard_delete-IsTable, tombstone_forget-IsTable}
use concierge_agent.Memory.Sound.Reviewed.{All-of_get, cite-AreTouched, patch-IsTable}
use concierge_agent.Memory.Steps.{
  System, Step, reading, remembering, replacing, forgetting, patching, citing, decaying, sweeping,
  Action, step, erasing, tombstoning, Reaches, at_rest, then_by,
}

pub record IsSystem (s : System) : Type 0 where
  pub table : IsTable s.store.memories
  pub read : All IsRow s.read

Step-IsSystem : (s t : System) → Step s t → IsSystem s → IsSystem t
Step-IsSystem s t (reading id m found) h = record {
  table = h.table;
  read = (All-of_get id s.store.memories m found h.table.each, h.read);
}
Step-IsSystem s t (remembering env n fresh) h = record {
  table = remember-IsTable env n s.store fresh h.table;
  read = h.read;
}
Step-IsSystem s t (replacing env r seen at fresh) h = record {
  table =
      replace_seen-IsTable env r seen s.store (All-IsIn IsRow s.read seen h.read at) fresh h.table;
  read = h.read;
}
Step-IsSystem s t (forgetting id now) h = record {
  table = AreTouched-IsTable _ _ (forget-AreTouched id now s.store) h.table;
  read = h.read;
}
Step-IsSystem s t (patching owns_row env id body fresh) h = record {
  table = patch-IsTable owns_row env id body s.store fresh h.table;
  read = h.read;
}
Step-IsSystem s t (citing parse print now cited) h = record {
  table = AreTouched-IsTable _ _ (cite-AreTouched parse print now cited s.store) h.table;
  read = h.read;
}
Step-IsSystem s t (decaying is_faint span gate now) h = record {
  table = AreTouched-IsTable _ _ (decay_sweep-AreTouched is_faint span gate now s.store) h.table;
  read = h.read;
}
Step-IsSystem s t (sweeping gate) h = record {
  table = AreTouched-IsTable _ _ (contradiction_sweep-AreTouched gate s.store) h.table;
  read = h.read;
}

Action-IsSystem : (s t : System) → Action s t → IsSystem s → IsSystem t
Action-IsSystem s t (step a) h = Step-IsSystem s t a h
Action-IsSystem s t (erasing id) h = record {
  table = hard_delete-IsTable id s.store h.table;
  read = h.read;
}
Action-IsSystem s t (tombstoning env id) h = record {
  table = tombstone_forget-IsTable env id s.store h.table;
  read = h.read;
}

reached-IsSystem : (s t : System) → Reaches Action s t → IsSystem s → IsSystem t
reached-IsSystem s t at_rest h = h
reached-IsSystem s t (then_by {t = m} before a) h =
    Action-IsSystem m t a (reached-IsSystem s m before h)

-- In whatever is reached from a sound state, by operations and erasures in whatever order, where a
-- replacement may go by a row that was read long before: ids are distinct; each row has a known
-- kind, scope and source, is stamped exactly if its status is superseded, and has a run or evidence
-- if a machine wrote it; what it supersedes is in the table, and so is what supersedes it, which
-- points back. New rows have new ids.
pub reached-IsTable : (s t : System) → Reaches Action s t → IsSystem s → IsTable t.store.memories
reached-IsTable s t r h = (reached-IsSystem s t r h).table
