-- ===== src/Tools/Ingest/Changed.antt =====
-- The listing of a tool whose schema changed (backend/app/mcp/manager.py,
-- backend/app/toolschema.py).
use mathlib.Core.Bool.{true≢false}
use concierge_agent.Prelude.{
  ◌≡◌, refl, sym, ap, ◌∙◌, Bool, true, false, ◌&&◌, some, String, if◌then◌else◌, ◌==◌, nat_eq,
  string_eq, option_eq, if-both, ==_ne, ||-false,
}
use concierge_agent.Tools.{
  Tool, quarantined, is_none, is_known, in_service, schema_fingerprint, apply_schema,
  apply_description,
}
use concierge_agent.Tools.Ingest.{Env, Spec, policy_of, come_back, relist}
use concierge_agent.Tools.Ingest.Service.{IsOff, come_back-IsOff}

module _ (env : Env) (spec : Spec) where
  apply_description-schema_hash :
      (source : String) (r : Tool)
      → (apply_description env.python spec.description source r).1.schema_hash ≡ r.schema_hash
  unfolding apply_description
  apply_description-schema_hash source r =
      if-both (λ (p : Bool × Tool). p.1.schema_hash ≡ r.schema_hash)
        (source == "server" && r.description_source == "operator") _ _ (λ e. refl) (λ e. refl)

  apply_schema-schema_hash :
      (r : Tool)
      → (apply_schema env.python spec.input_schema (policy_of env.setting) env.now r).1.schema_hash
        ≡ schema_fingerprint env.python spec.input_schema
  unfolding apply_schema
  apply_schema-schema_hash r =
      let P =
        λ (p : Bool × Tool). p.1.schema_hash ≡ schema_fingerprint env.python spec.input_schema in
      if-both P (is_known env.python spec.input_schema r) _ _ (λ e. refl)
        (λ e.
          if-both P (policy_of env.setting == "quarantine" && in_service r) _ _ (λ f. refl)
            (λ f. refl))

  pub relist-schema_hash :
      (r : Tool) → (relist env spec r).schema_hash ≡ schema_fingerprint env.python spec.input_schema
  unfolding relist come_back
  relist-schema_hash r =
      let d = (apply_description env.python spec.description "server" r).1 in
      let s = (apply_schema env.python spec.input_schema (policy_of env.setting) env.now d).1 in
      let e = apply_schema-schema_hash d in
      let P = λ (q : Tool). q.schema_hash ≡ schema_fingerprint env.python spec.input_schema in
      let first =
        if s.ingest_state == some "missing" && is_none s.deleted_at
        then record s { status = "active" }
        else s in
      let h =
        if-both P (s.ingest_state == some "missing" && is_none s.deleted_at)
          (record s { status = "active" }) s (λ f. e) (λ f. e) in
      if-both P (first.ingest_state == some quarantined) first
        (record first { ingest_state = some "present" }) (λ f. h) (λ f. h)

  -- A change of an active row, or of one that comes back, is a quarantine.
  apply_schema-quarantines :
      (r : Tool)
      → (policy_of env.setting == "quarantine") ≡ true
      → is_none r.schema_hash ≡ false
      → (schema_fingerprint env.python spec.input_schema == r.schema_hash) ≡ false
      → IsOff (apply_schema env.python spec.input_schema (policy_of env.setting) env.now r).1
  unfolding apply_schema
  apply_schema-quarantines r policy carried changed =
      let P = λ (p : Bool × Tool). IsOff p.1 in
      let strict = policy_of env.setting == "quarantine" in
      let unknown : is_known env.python spec.input_schema r ≡ false = rw (carried, changed) refl in
      if-both P (is_known env.python spec.input_schema r) _ _
        (λ e. absurd (true≢false (sym e ∙ unknown)))
        (λ e.
          if-both P (strict && in_service r) _ _
            (λ f. record { status = ==_ne "inactive" "active" refl; not_missing = refl })
            (λ f.
              let idle : in_service r ≡ false = sym (ap (λ b. b && in_service r) policy) ∙ f in
              let (status, missing) =
                ||-false (r.status == "active")
                  (r.ingest_state == some "missing" && is_none r.deleted_at) idle in
              record { status = ==_ne r.status "active" status; not_missing = missing }))

  pub relist-quarantines :
      (r : Tool)
      → (policy_of env.setting == "quarantine") ≡ true
      → is_none r.schema_hash ≡ false
      → (schema_fingerprint env.python spec.input_schema == r.schema_hash) ≡ false
      → IsOff (relist env spec r)
  unfolding relist
  relist-quarantines r policy carried changed =
      let d = (apply_description env.python spec.description "server" r).1 in
      let same = apply_description-schema_hash "server" r in
      come_back-IsOff
        (apply_schema env.python spec.input_schema (policy_of env.setting) env.now d).1
        (apply_schema-quarantines d policy (ap (λ o. is_none o) same ∙ carried)
          (ap (λ o. schema_fingerprint env.python spec.input_schema == o) same ∙ changed))
