-- ===== src/Ambient/Deliver/Outbox.antt =====
-- The outbox and its single insert path (backend/app/ambient/deliver.py, and the Delivery and
-- AmbientPolicy models of backend/app/models/ambient.py). The columns that the delivery plane never
-- touches are left out.
use concierge_agent.Prelude.{
  ℕ, zero, suc, String, Bool, not, ◌&&◌, ◌||◌, Option, none, some, List, [], ◌∷◌, map, ltb,
  if◌then◌else◌, ◌==◌, nat_eq, string_eq, option_eq, contains, select, find_where,
}
use concierge_agent.Prelude.Clock.{Instant}
use concierge_agent.Ambient.Events.{Uuid}

-- The ledger of the channels: the name and the entry, the newest first.
abbrev pub Sends : Type 0
Sends = List (String × String)

pub record Delivery : Type 0 where
  pub id : Uuid
  pub user_id : Option Uuid
  pub run_id : Option Uuid
  pub intent_id : Option Uuid
  pub category : String
  pub tier : ℕ
  pub urgency : ℕ
  pub title : String
  pub body : Option String
  pub deliver_no_later_than : Option Instant
  pub delivered_at : Option Instant
  pub channel : Option String
  pub superseded_by : Option Uuid
  pub policy_id : Option Uuid
  pub skey : Option String
  pub external : Sends
  pub feedback : Option String
  pub created_at : Instant

abbrev pub Outbox : Type 0
Outbox = List Delivery

pub record AmbientPolicy : Type 0 where
  pub id : Uuid
  pub user_id : Option Uuid
  pub category : String
  pub tier_override : Option ℕ
  pub source : String
  pub created_at : Instant

-- ORDER BY: the items in an order in which `before` puts them, a tie as the table has it.
module _ {A : Type 0} (before : A → A → Bool) where
  abbrev pub insert_ordered : A → List A → List A
  insert_ordered a [] = a ∷ []
  insert_ordered a (x ∷ xs) =
      let rest = insert_ordered a xs in if before x a then x ∷ rest else a ∷ (x ∷ xs)

  abbrev pub order_by : List A → List A
  order_by [] = []
  order_by (x ∷ xs) = insert_ordered x (order_by xs)

-- The applied policies of a category that a user falls under, the newest first.
pub applied_policies : List AmbientPolicy → String → Option Uuid → List AmbientPolicy
applied_policies policies category user =
    order_by (λ p q. ltb q.created_at p.created_at)
      (select
        (λ p.
          p.category == category
          && not (contains p.source ("learner_proposal" ∷ "learner_rejected" ∷ []))
          && (p.user_id == user || p.user_id == none))
        policies)

-- The override, and the id of the policy that it came from.
unfoldable pub current_policy : List AmbientPolicy → String → Option Uuid → Option ℕ × Option Uuid
unfolding applied_policies
current_policy policies category user =
    let rows = applied_policies policies category user in
    elim (find_where (λ p. p.user_id == user) rows) [
      | some p ↦ (p.tier_override, some p.id)
      | none ↦ elim rows [ [] ↦ (none, none) | p ∷ _ ↦ (p.tier_override, some p.id) ]
    ]

-- The keyword arguments of `add_delivery`.
pub record Item : Type 0 where
  pub category : String
  pub tier : ℕ
  pub urgency : ℕ
  pub title : String
  pub body : Option String
  pub run_id : Option Uuid
  pub intent_id : Option Uuid
  pub skey : Option String
  pub deliver_no_later_than : Option Instant
  pub user_id : Option Uuid

-- What an insert meets: the owners of the runs and of the intents, the requester, the policies, the
-- clocks and a fresh UUID.
pub record Inserting : Type 0 where
  pub run_owner : Uuid → Option Uuid
  pub intent_owner : Uuid → Option Uuid
  pub requester : Option Uuid
  pub policies : List AmbientPolicy
  pub now : Instant
  pub db_now : Instant
  pub fresh : Uuid

abbrev owner_of : (Uuid → Option Uuid) → Option Uuid → Option Uuid
owner_of owner none = none
owner_of owner (some id) = owner id

abbrev or_else : Option Uuid → Option Uuid → Option Uuid
or_else none d = d
or_else (some a) d = some a

-- _resolve_owner
pub resolve_owner : Inserting → Option Uuid → Option Uuid → Option Uuid
resolve_owner env run intent =
    or_else (owner_of env.run_owner run) (or_else (owner_of env.intent_owner intent) env.requester)

-- title[:n]
pub first_chars : ℕ → String → String
first_chars zero s = ""
first_chars (suc n) String.[] = ""
first_chars (suc n) (String.◌∷◌ c s) = String.◌∷◌ c (first_chars n s)

abbrev pub tier_or : Option ℕ → ℕ → ℕ
tier_or none d = d
tier_or (some t) d = t

abbrev pub overridden : Option ℕ × Option Uuid → Option Uuid
overridden (none, id) = none
overridden (some t, id) = id

-- The row that `add_delivery` inserts.
unfoldable pub new_delivery : Inserting → Item → Delivery
unfolding resolve_owner first_chars current_policy
new_delivery env item =
    let user = or_else item.user_id (resolve_owner env item.run_id item.intent_id) in
    let policy = current_policy env.policies item.category user in
    let silent = tier_or policy.0 item.tier == 3 in
    record {
      id = env.fresh;
      user_id = user;
      run_id = item.run_id;
      intent_id = item.intent_id;
      category = item.category;
      tier = tier_or policy.0 item.tier;
      urgency = item.urgency;
      title = first_chars 250 item.title;
      body = item.body;
      deliver_no_later_than = item.deliver_no_later_than;
      delivered_at = if silent then some env.now else none;
      channel = if silent then some "silent" else none;
      superseded_by = none;
      policy_id = overridden policy;
      skey = item.skey;
      external = [];
      feedback = none;
      created_at = env.db_now;
    }

-- delivered_at IS NULL AND superseded_by IS NULL
abbrev pub is_open : Delivery → Bool
is_open r = r.delivered_at == none && r.superseded_by == none

-- The rows that a new row with this key supersedes, and what becomes of them.
unfoldable pub supersede : Uuid → String → Delivery → Delivery
supersede id key r =
    if r.skey == some key && (not (r.id == id) && is_open r)
    then record r { superseded_by = some id }
    else r

-- `if skey:` is false of the empty text.
unfoldable pub collapse : Delivery → Outbox → Outbox
unfolding supersede
collapse row table = elim row.skey [
  | none ↦ table
  | some key ↦ if key == "" then table else map (supersede row.id key) table
]

unfoldable pub add_delivery : Inserting → Item → Outbox → Outbox
unfolding new_delivery collapse
add_delivery env item table = new_delivery env item ∷ collapse (new_delivery env item) table
