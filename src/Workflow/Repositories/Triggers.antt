-- ===== src/Workflow/Repositories/Triggers.antt =====
-- `findByTriggerEvent` of workflow/infrastructure/persistence/workflow-definition.repository.ts, and which
-- definitions it gives.
use multi_tenant_saa_s_platf.Base.{
  ℕ, ◌≡◌, ◌↔◌, refl, inl, inr, Bool, true, false, ◌&&◌, sym, Option, none, some, List, [], ◌∷◌, map,
  Text, ok, arith, Result-cases, text_eq_iff, All, all, keep, keep_agree, length, length-map, ap,
  ◌∙◌, ◌===◌,
}
use multi_tenant_saa_s_platf.Base.Actions.{Action, lift, reading, pure, ◌>>=◌}
use multi_tenant_saa_s_platf.Kernel.Context.{TenantContext}
use multi_tenant_saa_s_platf.Kernel.Repository.{
  Repository, SelectQuery, and_where, fits, scoped_qb, require_tenant_id,
}
use multi_tenant_saa_s_platf.Kernel.Repository.Isolation.{ActsFor, require_tenant_id_iff}
use multi_tenant_saa_s_platf.Workflow.Definition
use multi_tenant_saa_s_platf.Workflow.Definition.{
  WorkflowDefinition, WorkflowTriggerType, WorkflowDefinitionStatus, manual, event, schedule,
  webhook, draft, active, archived,
}
use multi_tenant_saa_s_platf.Workflow.Repositories.{
  DefinitionOrm, definition_column, definition_to_domain,
}

-- `wd.trigger->>'type' = 'event'`, `wd.trigger->>'eventType' = :eventType` and `wd.status = 'active'`
abbrev pub is_event_trigger : WorkflowTriggerType → Bool
is_event_trigger manual = false
is_event_trigger event = true
is_event_trigger schedule = false
is_event_trigger webhook = false

abbrev pub is_event_type : Option Text → Text → Bool
is_event_type none event_type = false
is_event_type (some t) event_type = t === event_type

abbrev pub has_active_status : WorkflowDefinitionStatus → Bool
has_active_status draft = false
has_active_status active = true
has_active_status archived = false

abbrev pub triggered_query : Text → SelectQuery DefinitionOrm → SelectQuery DefinitionOrm
triggered_query event_type query =
    and_where (λ d. has_active_status d.status)
      (and_where (λ d. is_event_type d.trigger.event_type event_type)
        (and_where (λ d. is_event_trigger d.trigger.type) query))

module _ (repo : Repository definition_column) (store : Option TenantContext) (now now' : ℕ) where
  unfoldable pub find_by_trigger_event : Text → Action repo.Table (List WorkflowDefinition)
  unfolding and_where definition_to_domain
  find_by_trigger_event event_type = do
    query ← lift (scoped_qb store definition_column)
    orms ← reading (repo.get_many (triggered_query event_type query))
    pure (map (definition_to_domain now now') orms)

-- A tenant's active definition that events of this type trigger.
abbrev pub IsTriggered : Text → Text → WorkflowDefinition → Type 0
IsTriggered tenant event_type d =
    (d.tenant_id ≡ tenant)
    × (d.trigger.type ≡ event)
    × (d.trigger.event_type ≡ some event_type)
    × (d.status ≡ active)

event_trigger_iff : (t : WorkflowTriggerType) → (is_event_trigger t ≡ true) ↔ (t ≡ event)
event_trigger_iff manual = ground arith
event_trigger_iff event = ground arith
event_trigger_iff schedule = ground arith
event_trigger_iff webhook = ground arith

event_type_iff :
    (o : Option Text) (event_type : Text)
    → (is_event_type o event_type ≡ true) ↔ (o ≡ some event_type)
event_type_iff none event_type = ground arith
event_type_iff (some t) event_type = ground (arith, text_eq_iff t event_type)

active_iff : (s : WorkflowDefinitionStatus) → (has_active_status s ≡ true) ↔ (s ≡ active)
active_iff draft = ground arith
active_iff active = ground arith
active_iff archived = ground arith

and_iff : (a b : Bool) → ((a && b) ≡ true) ↔ ((a ≡ true) × (b ≡ true))
and_iff a b = ground arith

keep_whole : {E : Type 0} (es : List E) → keep (λ e. true) es ≡ es
keep_whole [] = refl
keep_whole (e ∷ es) = ap (λ r. e ∷ r) (keep_whole es)

module _ (tenant event_type : Text) (now now' : ℕ) where
  abbrev filters : List (DefinitionOrm → Bool)
  filters =
      (λ d. definition_column "tenantId" d === tenant)
      ∷ (λ d. is_event_trigger d.trigger.type)
      ∷ (λ d. is_event_type d.trigger.event_type event_type)
      ∷ (λ d. has_active_status d.status)
      ∷ []

  IsTriggered-iff :
      (d : DefinitionOrm)
      → (fits filters d ≡ true) ↔ IsTriggered tenant event_type (definition_to_domain now now' d)
  unfolding fits definition_to_domain Definition.reconstitute definition_column
  IsTriggered-iff d =
      let own = text_eq_iff d.tenant_id tenant in
      let kind = event_trigger_iff d.trigger.type in
      let type = event_type_iff d.trigger.event_type event_type in
      let live = active_iff d.status in
      let (h1, g1) = and_iff (d.tenant_id === tenant) _ in
      let (h2, g2) = and_iff (is_event_trigger d.trigger.type) _ in
      let (h3, g3) = and_iff (is_event_type d.trigger.event_type event_type) _ in
      let (h4, g4) = and_iff (has_active_status d.status) true in
      (
        λ h.
            let (a, r) = h1 h in
            let (b, q) = h2 r in
            let (c, p) = h3 q in (own.0 a, kind.0 b, type.0 c, live.0 (h4 p).0),
        λ (a, b, c, e). g1 (own.1 a, g2 (kind.1 b, g3 (type.1 c, g4 (live.1 e, refl)))),
      )

  all-IsTriggered :
      (orms : List DefinitionOrm)
      → all (fits filters) orms ≡ true
      → All (IsTriggered tenant event_type) (map (definition_to_domain now now') orms)
  all-IsTriggered [] h = tt
  all-IsTriggered (d ∷ orms) h =
      let (first, rest) = (and_iff (fits filters d) (all (fits filters) orms)).0 h in
      ((IsTriggered-iff d).0 first, all-IsTriggered orms rest)

-- The definitions that an event triggers are found for the tenant that the request acts for: all that are
-- given are that tenant's, active, and triggered by events of this type, there are as many as rows that
-- any test of these conditions accepts, and nothing is written.
pub find_by_trigger_event-IsTriggered :
    (repo : Repository definition_column) (store : Option TenantContext) (now now' : ℕ)
    (event_type : Text) (t t' : repo.Table) (found : List WorkflowDefinition)
    → find_by_trigger_event repo store now now' event_type t ≡ (ok found, t')
    → (tenant : Text) × ActsFor store tenant
      × All (IsTriggered tenant event_type) found
      × ((p : DefinitionOrm → Bool)
          → ((d : DefinitionOrm)
              → (p d ≡ true) ↔ IsTriggered tenant event_type (definition_to_domain now now' d))
          → length found ≡ length (keep p (repo.rows t)))
      × (t' ≡ t)
unfolding find_by_trigger_event scoped_qb
find_by_trigger_event-IsTriggered repo store now now' event_type t t' found h =
    elim (Result-cases (require_tenant_id store)) [
      | inl (tenant, r) ↦
          let asked : SelectQuery DefinitionOrm = record {
            filters = filters tenant event_type now now';
            order_desc = none;
            skip = 0;
            take = none;
          } in
          elim (Result-cases (repo.get_many asked t)) [
            | inl (orms, e) ↦
                let items : map (definition_to_domain now now') orms ≡ found = ground arith in
                (
                  tenant,
                  (require_tenant_id_iff store tenant).0 r,
                  rw (← items) (
                      all-IsTriggered tenant event_type now now' orms
                        (repo.get_many_fit asked t orms e)),
                  λ p agrees.
                      let all_rows = repo.get_many_keep asked t orms e refl refl (λ d. true) in
                      rw (← items) (
                        length-map (definition_to_domain now now') orms
                        ∙ ap length (sym (keep_whole orms))
                        ∙ all_rows
                        ∙ ap length (keep_whole _)
                        ∙ ap length (
                            keep_agree (fits asked.filters) p (repo.rows t) (λ d. (
                              λ x.
                                  (agrees d).1 ((IsTriggered-iff tenant event_type now now' d).0 x),
                              λ x.
                                  (IsTriggered-iff tenant event_type now now' d).1 ((agrees d).0 x),
                            )))),
                  ground arith,
                )
            | inr (x, e) ↦ ground arith
          ]
      | inr (x, r) ↦ ground arith
    ]
