-- ===== src/Ambient/Deliver/Flush.antt =====
-- The passes that deliver the rows of the outbox (backend/app/ambient/deliver.py).
use concierge_agent.Prelude.{
  ℕ, zero, suc, ◌-◌, String, Bool, true, false, not, ◌&&◌, ◌||◌, Option, none, some, List, [], ◌∷◌,
  ◌++◌, map, ltb, leb, if◌then◌else◌, ◌==◌, nat_eq, string_eq, option_eq, contains, select,
  count_where,
}
use concierge_agent.Prelude.Clock.{Instant, midnight}
use concierge_agent.Ambient.Events.{Uuid}
use concierge_agent.Ambient.Deliver.Outbox.{Sends, Delivery, Outbox, order_by, is_open}
use concierge_agent.Ambient.Deliver.Settings.{Settings, Prefs, effective_settings}

-- A bucket: the rows of one owner (`none`: of nobody), or all rows.
pub record Bucket : Type 0 where
  pub owner : Option Uuid
  pub scoped : Bool

-- _owner_clause
abbrev pub in_bucket : Bucket → Delivery → Bool
in_bucket b r = not b.scoped || r.user_id == b.owner

-- What a pass meets: the settings, the states of presence (`none`: the key "default"), and what
-- `dispatch_delivered` answers for a mode and a batch.
pub record Env : Type 0 where
  pub globals : Settings
  pub prefs : Uuid → Prefs
  pub presence : Option Uuid → Option String
  pub dispatch : String → List Delivery → Sends
  pub now : Instant

-- ORDER BY urgency DESC, created_at
abbrev pub leads : Delivery → Delivery → Bool
leads r s = ltb s.urgency r.urgency || (r.urgency == s.urgency && ltb r.created_at s.created_at)

abbrev pub is_pending : Bucket → ℕ → Delivery → Bool
is_pending b tier r = r.tier == tier && (is_open r && in_bucket b r)

abbrev pub pending : Bucket → ℕ → Outbox → List Delivery
pending b tier table = order_by leads (select (is_pending b tier) table)

abbrev pub since : Instant → Option Instant → Bool
since start none = false
since start (some at) = leb start at

abbrev pub is_interrupt : Bucket → Instant → Delivery → Bool
is_interrupt b start r =
    r.channel == some "interrupt" && (since start r.delivered_at && in_bucket b r)

-- _interrupts_delivered_today
abbrev pub interrupts_today : Bucket → Instant → Outbox → ℕ
interrupts_today b now table = count_where (is_interrupt b (midnight now)) table

unfoldable pub presence_active : Env → Bucket → Bool
presence_active env b = env.presence (if b.scoped then b.owner else none) == some "active"

abbrev pub ids : List Delivery → List Uuid
ids rows = map (λ (r : Delivery). r.id) rows

-- What `_deliver_batch` makes of a row of the batch that is not delivered yet.
abbrev pub deliver : Instant → String → Sends → List Uuid → Delivery → Delivery
deliver now mode entries batch r =
    if contains r.id batch && r.delivered_at == none
    then record r { delivered_at = some now; channel = some mode; external = entries ++ r.external }
    else r

abbrev pub is_fresh : List Uuid → Delivery → Bool
is_fresh batch r = contains r.id batch && r.delivered_at == none

-- The number of rows written, and the table.
unfoldable pub deliver_batch : Env → String → List Delivery → Outbox → ℕ × Outbox
deliver_batch env mode [] table = (0, table)
deliver_batch env mode (r ∷ rows) table = (
  count_where (is_fresh (ids (r ∷ rows))) table,
  map (deliver env.now mode (env.dispatch mode (r ∷ rows)) (ids (r ∷ rows))) table,
)

-- row.tier = 2, of the rows of a batch
abbrev pub demote : List Uuid → Delivery → Delivery
demote batch r = if contains r.id batch then record r { tier = 2 } else r

-- The rows that a pass delivers, and those that it demotes.
pub record Triage : Type 0 where
  pub chosen : List Delivery
  pub demoted : List Delivery

abbrev pub choose : Delivery → Triage → Triage
choose r t = record { chosen = r ∷ t.chosen; demoted = t.demoted }

abbrev pub put_off : Delivery → Triage → Triage
put_off r t = record { chosen = t.chosen; demoted = r ∷ t.demoted }

-- The loop of `_flush_bucket` over the interrupts.
unfoldable pub triage_interrupts : Bool → ℕ → ℕ → List Delivery → Triage
triage_interrupts quiet budget used [] = record { chosen = []; demoted = [] }
triage_interrupts quiet budget used (r ∷ rest) = elim (quiet || leb budget used) [
  | true ↦ put_off r (triage_interrupts quiet budget used rest)
  | false ↦ choose r (triage_interrupts quiet budget (suc used) rest)
]

abbrev pub deadline_passed : Instant → Option Instant → Bool
deadline_passed now none = false
deadline_passed now (some at) = leb at now

-- The loop of `_flush_tier1`.
unfoldable pub triage_notifies : Instant → Bool → Bool → List Delivery → Triage
triage_notifies now present quiet [] = record { chosen = []; demoted = [] }
triage_notifies now present quiet (r ∷ rest) =
    let more = triage_notifies now present quiet rest in
    if not (present || deadline_passed now r.deliver_no_later_than)
    then more
    else if quiet
    then put_off r more
    else choose r more

-- category in APPROVAL_CATEGORIES
abbrev pub is_approval : Delivery → Bool
is_approval r = contains r.category ("hitl" ∷ "learning" ∷ [])

-- The loop of `_digest_flush`, with the approvals that are still allowed.
unfoldable pub choose_digest : ℕ → List Delivery → List Delivery
choose_digest allowed [] = []
choose_digest allowed (r ∷ rest) = elim (is_approval r) [
  | false ↦ r ∷ choose_digest allowed rest
  | true ↦ elim allowed [ zero ↦ choose_digest zero rest | suc left ↦ r ∷ choose_digest left rest ]
]

abbrev pub is_approval_since : Bucket → Instant → Delivery → Bool
is_approval_since b start r = is_approval r && (since start r.delivered_at && in_bucket b r)

abbrev pub approvals_today : Bucket → Instant → Outbox → ℕ
approvals_today b now table = count_where (is_approval_since b (midnight now)) table

abbrev pub bucket_settings : Env → Bucket → Settings
bucket_settings env b =
    effective_settings env.globals env.prefs (if b.scoped then b.owner else none)

unfoldable pub digest_flush : Env → Bucket → Outbox → ℕ × Outbox
unfolding deliver_batch choose_digest effective_settings
digest_flush env b table =
    let allowed = (bucket_settings env b).escalation_budget - approvals_today b env.now table in
    deliver_batch env "digest" (choose_digest allowed (pending b 2 table)) table

unfoldable pub flush_tier1 : Env → Bucket → Bool → Bool → Outbox → ℕ × Outbox
unfolding deliver_batch triage_notifies presence_active
flush_tier1 env b quiet force table =
    let t = triage_notifies env.now (force || presence_active env b) quiet (pending b 1 table) in
    deliver_batch env "notify" t.chosen (map (demote (ids t.demoted)) table)
