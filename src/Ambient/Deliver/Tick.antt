-- ===== src/Ambient/Deliver/Tick.antt =====
-- The delivery pass of a tick, and the edge on which a user returns
-- (backend/app/ambient/deliver.py).
use concierge_agent.Prelude.{
  ℕ, ◌+◌, ◌/◌, Bool, true, false, not, Option, none, some, List, [], ◌∷◌, map, ltb, leb, length,
  if◌then◌else◌, ◌==◌, nat_eq, string_eq, option_eq, contains, select,
}
use concierge_agent.Prelude.Clock.{Instant}
use concierge_agent.Ambient.Events.{Uuid}
use concierge_agent.Ambient.Deliver.Outbox.{Delivery, Outbox, order_by, is_open}
use concierge_agent.Ambient.Deliver.Settings.{in_quiet_hours, latest_occurrence, effective_settings}
use concierge_agent.Ambient.Deliver.Flush.{
  Bucket, in_bucket, Env, bucket_settings, interrupts_today, pending, ids, demote, deliver_batch,
  triage_interrupts, flush_tier1, digest_flush,
}

-- SELECT max(delivered_at)
abbrev latest : List Delivery → Option Instant
latest [] = none
latest (r ∷ rest) =
    let others = latest rest in
    elim r.delivered_at [
      | none ↦ others
      | some at ↦ elim others [ none ↦ some at | some o ↦ some (if leb o at then at else o) ]
    ]

-- When the bucket's last digest went out.
abbrev last_digest : Bucket → Outbox → Option Instant
last_digest b table =
    latest (select (λ r. if r.channel == some "digest" then in_bucket b r else false) table)

-- _digest_due
unfoldable pub digest_due : Env → Bucket → Outbox → Bool
unfolding latest_occurrence effective_settings
digest_due env b table =
    let s = bucket_settings env b in
    elim (latest_occurrence (s.timezone.wall env.now) s.digest_times) [
      | none ↦ false
      | some at ↦ elim (last_digest b table) [
        | none ↦ true
        | some flushed ↦ ltb flushed (s.timezone.instant at)
      ]
    ]

-- The counters `out`.
pub record Counts : Type 0 where
  pub interrupt : ℕ
  pub notify : ℕ
  pub digest : ℕ
  pub demoted : ℕ

abbrev pub is_quiet : Env → Bucket → Bool
is_quiet env b = let s = bucket_settings env b in in_quiet_hours env.now s.quiet_hours s.timezone

-- The interrupts of a bucket: the number demoted; the number delivered and the table.
unfoldable pub flush_interrupts : Env → Bucket → Outbox → ℕ × (ℕ × Outbox)
unfolding deliver_batch triage_interrupts in_quiet_hours effective_settings
flush_interrupts env b table =
    let t =
      triage_interrupts (is_quiet env b) (bucket_settings env b).notification_budget
        (interrupts_today b env.now table) (pending b 0 table) in
    (length t.demoted, deliver_batch env "interrupt" t.chosen (map (demote (ids t.demoted)) table))

-- The digest of a bucket, unless the hours are quiet.
unfoldable pub flush_digest : Env → Bucket → Outbox → ℕ × Outbox
unfolding digest_due digest_flush in_quiet_hours effective_settings
flush_digest env b table = elim (is_quiet env b) [
  | true ↦ (0, table)
  | false ↦ if digest_due env b table then digest_flush env b table else (0, table)
]

-- _flush_bucket
unfoldable pub flush_bucket : Env → Bucket → Counts × Outbox → Counts × Outbox
unfolding flush_interrupts flush_tier1 flush_digest in_quiet_hours effective_settings
flush_bucket env b (out, table) =
    let (demoted, interrupts) = flush_interrupts env b table in
    let (interrupt, t1) = interrupts in
    let (notify, t2) = flush_tier1 env b (is_quiet env b) false t1 in
    let (digest, t3) = flush_digest env b t2 in
    (
      record {
        interrupt = out.interrupt + interrupt;
        notify = out.notify + notify;
        digest = out.digest + digest;
        demoted = out.demoted + demoted;
      },
      t3,
    )

-- str(a) < str(b) of two UUIDs or None: "None" stands behind the digits and before the letters.
abbrev starts_with_digit : Uuid → Bool
starts_with_digit u = ltb (u / 21267647932558653966460912964485513216) 10

abbrev pub owner_leads : Option Uuid → Option Uuid → Bool
owner_leads none none = false
owner_leads none (some b) = not (starts_with_digit b)
owner_leads (some a) none = starts_with_digit a
owner_leads (some a) (some b) = ltb a b

-- SELECT DISTINCT user_id of the open rows
abbrev pub open_owners : Outbox → List (Option Uuid)
open_owners [] = []
open_owners (r ∷ rest) =
    let others = open_owners rest in
    if is_open r then if contains r.user_id others then others else r.user_id ∷ others else others

unfoldable pub flush_owners : Env → List (Option Uuid) → Counts × Outbox → Counts × Outbox
unfolding flush_bucket
flush_owners env [] s = s
flush_owners env (owner ∷ rest) s =
    flush_owners env rest (flush_bucket env (record { owner = owner; scoped = true }) s)

unfoldable pub flush_deliveries : Env → Bool → Outbox → Counts × Outbox
unfolding flush_owners flush_bucket
flush_deliveries env tenancy table =
    let zero_counts : Counts = record { interrupt = 0; notify = 0; digest = 0; demoted = 0 } in
    if tenancy
    then flush_owners env (order_by owner_leads (open_owners table)) (zero_counts, table)
    else flush_bucket env (record { owner = none; scoped = false }) (zero_counts, table)

-- The edge on which a user returns, away for so many microseconds.
unfoldable pub on_user_returned : Env → Bool → Option Uuid → ℕ → Outbox → Outbox
unfolding flush_tier1 digest_flush
on_user_returned env tenancy user away table =
    let b : Bucket = record { owner = user; scoped = tenancy } in
    let t1 = (flush_tier1 env b false true table).1 in
    if ltb 3600000000 away then (digest_flush env b t1).1 else t1
