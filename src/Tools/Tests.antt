-- ===== src/Tools/Tests.antt =====
-- A small table of tools (backend/app/toolschema.py, backend/app/mcp/manager.py,
-- backend/app/api/tools.py).
use concierge_agent.Prelude.{
  ◌+◌, ◌≡◌, ◌≢◌, refl, inl, String, false, none, some, List, [], ◌∷◌, arith, string_eq, option_eq,
  ==_ne,
}
use concierge_agent.Prelude.Clock.{hours}
use concierge_agent.Factory.Json.{Json, str}
use concierge_agent.Tools.{Python, Tool, schema_fingerprint}
use concierge_agent.Tools.Ingest.{Env, Spec, Server, policy_of, ingest}
use concierge_agent.Tools.Ingest.Rows.{Each}
use concierge_agent.Tools.Ingest.Service.{IsOff, IsFreshOf, ingests, ingests-IsOff}
use concierge_agent.Tools.Ingest.Returned.{as_listed, ingest_round_trip}
use concierge_agent.Tools.Ingest.Quarantine.{ingest-quarantines}
use concierge_agent.Tools.Operator.{Patch, patch_tool, done}
use concierge_agent.Tools.Operator.Disabled.{patch_tool-IsOff}

abbrev text_of : Json → String
text_of (str s) = s
text_of _ = ""

abbrev python : Python
python = record { sha256 = λ s. s; dumps = text_of; strip = λ s. s }

abbrev mail : Server
mail = record { id = 7; name = "mail"; source = "dynamic" }

abbrev meets : String → Env
meets policy = record {
  python = python;
  server = mail;
  setting = some policy;
  now = hours 12;
  fresh = λ n. 100 + n;
  digits = λ n. "a1b2c3";
}

abbrev send : Tool
send = record {
  id = 1;
  name = "send";
  description = "Sends a mail.";
  source = "dynamic";
  status = "active";
  deleted_at = none;
  kind = "mcp";
  mcp_server_id = some 7;
  tool_name = "send";
  tool_key = "mail.send";
  direct_exposure = false;
  input_schema = some (str "to");
  ingest_state = some "present";
  schema_hash = some "to";
  schema_version = some 1;
  schema_changed_at = none;
  description_hash = some "Sends a mail.";
  description_source = "server";
}

abbrev listed : String → Spec
listed schema = record {
  name = "send";
  description = "Sends a mail.";
  input_schema = some (str schema);
}

-- The schema changes, and then the server lists the tool again.
abbrev again : List (Env × List Spec)
again = (meets "warn", listed "recipient" ∷ []) ∷ []

ids_are_fresh : (policy : String) → IsFreshOf 1 (meets policy)
ids_are_fresh policy n e = omega (arith, e)

quarantine_set : policy_of (some "quarantine") ≡ "quarantine"
unfolding policy_of
quarantine_set = refl

recipient_is_new : schema_fingerprint python (some (str "recipient")) ≢ some "to"
unfolding schema_fingerprint
recipient_is_new = ==_ne (some "recipient") (some "to") refl

ingest-quarantines_example :
    Each IsOff 1 (ingests again (ingest (meets "quarantine") (listed "recipient" ∷ []) (send ∷ [])))
ingest-quarantines_example =
    ingest-quarantines (meets "quarantine") (listed "recipient" ∷ []) (send ∷ []) send
      (listed "recipient") again quarantine_set (λ h. h, tt) (inl refl) refl (λ h. cc) (inl refl)
      refl recipient_is_new (ids_are_fresh "quarantine") (ids_are_fresh "warn", tt)

abbrev stopped : Tool
stopped = record send { status = "inactive" }

stopped-IsOff : Each IsOff 1 (stopped ∷ [])
stopped-IsOff = (λ e. record { status = ==_ne "inactive" "active" refl; not_missing = refl }, tt)

ingests-IsOff_example : Each IsOff 1 (ingests again (stopped ∷ []))
ingests-IsOff_example =
    ingests-IsOff 1 again (stopped ∷ []) (ids_are_fresh "warn", tt) stopped-IsOff

abbrev stop : Patch
stop = record {
  description = none;
  status = some "inactive";
  direct_exposure = none;
  tool_key = none;
  hands_back = false;
}

send_is_stopped : patch_tool python (λ id. []) 1 stop (send ∷ []) ≡ done (stopped ∷ [])
unfolding patch_tool
send_is_stopped = refl

patch_tool-IsOff_example : Each IsOff 1 (ingests again (stopped ∷ []))
patch_tool-IsOff_example =
    patch_tool-IsOff python (λ id. []) 1 stop (send ∷ []) (stopped ∷ []) again refl (λ e. refl, tt)
      send_is_stopped (ids_are_fresh "warn", tt)

ingest_round_trip_example :
    ingest
      (meets "quarantine")
      (listed "to" ∷ [])
      (ingest (meets "warn") [] (as_listed (meets "quarantine") (listed "to") 1 send ∷ []))
    ≡ as_listed (meets "quarantine") (listed "to") 1 send ∷ []
ingest_round_trip_example =
    ingest_round_trip (meets "warn") (meets "quarantine") (listed "to") 1 send [] refl tt
