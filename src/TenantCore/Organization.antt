-- ===== src/TenantCore/Organization.antt =====
-- tenant-core/domain/aggregates/organization.aggregate.ts and domain/events. A method that throws
-- does so before it assigns a field, so it gives no new state; the instants and ids that it makes
-- are arguments, in the order in which they are made.
pub mod Lifecycle
pub mod Mapper
use multi_tenant_saa_s_platf.Base.{
  ℕ, ◌+◌, ◌≡◌, Bool, true, false, ◌||◌, not, Option, none, some, List, [], ◌∷◌, ◌++◌, Text, String,
  Result, ok, fail, Exception, conflict, error, Message, ltb, ◌===◌, trim, length, get_or, throw_if,
  ◌>>=◌, ◌>>◌, CaseMapping, if◌then◌else◌, is_empty,
}
use multi_tenant_saa_s_platf.Kernel.Json.{Json, str, date, Fields, field, end}
use multi_tenant_saa_s_platf.Kernel.Entity.{
  Entity, EntityProps, new_entity, touch, DomainEvent, DomainEventMetadata, new_domain_event,
}
use multi_tenant_saa_s_platf.Kernel.Tenancy.{
  TenantPlanTier, TenantStatus, provisioning, active, suspended, tier_value, status_value,
}
use multi_tenant_saa_s_platf.TenantCore.Plan.{TenantPlan, for_tier}
use multi_tenant_saa_s_platf.TenantCore.Slug.{TenantSlug}
use multi_tenant_saa_s_platf.TenantCore.Slug

pub record OrganizationSettings : Type 0 where
  pub allow_public_signup : Bool
  pub enforces_mfa : Bool
  pub sso_enabled : Bool
  pub audit_enabled : Bool

-- `Partial<OrganizationSettings>`
pub record SettingsPatch : Type 0 where
  pub allow_public_signup : Option Bool
  pub enforces_mfa : Option Bool
  pub sso_enabled : Option Bool
  pub audit_enabled : Option Bool

pub record OrganizationProps : Type 0 where
  pub organization_id : Text
  pub name : Text
  pub slug : TenantSlug
  pub plan : TenantPlan
  pub status : TenantStatus
  pub owner_id : Text
  pub provisioned_at : Option ℕ
  pub settings : OrganizationSettings
  pub created_at : Option ℕ
  pub updated_at : Option ℕ

pub record Organization : Type 0 where
  pub base : Entity
  pub open base use *
  pub name : Text
  pub slug : TenantSlug
  pub plan : TenantPlan
  pub status : TenantStatus
  pub owner_id : Text
  pub provisioned_at : Option ℕ
  pub settings : OrganizationSettings
  pub domain_events : List DomainEvent

-- The constructor, which `reconstitute` is too.
unfoldable pub reconstitute : OrganizationProps → ℕ → ℕ → Organization
unfolding new_entity
reconstitute props now now' = record {
  base =
      new_entity
        (record {
          id = some props.organization_id;
          created_at = props.created_at;
          updated_at = props.updated_at;
        })
        props.organization_id now now';
  name = props.name;
  slug = props.slug;
  plan = props.plan;
  status = props.status;
  owner_id = props.owner_id;
  provisioned_at = props.provisioned_at;
  settings = props.settings;
  domain_events = [];
}

-- `addDomainEvent`, `clearDomainEvents`, `hasDomainEvents`
unfoldable pub add_domain_event : DomainEvent → Organization → Organization
add_domain_event event org = record org { domain_events = org.domain_events ++ event ∷ [] }

unfoldable pub clear_domain_events : Organization → Organization
clear_domain_events org = record org { domain_events = [] }

unfoldable pub has_domain_events : Organization → Bool
has_domain_events org = not (is_empty org.domain_events)

abbrev pub event_of : Text → Text → Option Text → DomainEventMetadata
event_of tenant_id correlation_id actor_id = record {
  tenant_id = tenant_id;
  correlation_id = correlation_id;
  actor_id = actor_id;
  causation_id = none;
  trace_id = none;
  source_service = none;
  source_version = none;
}

-- The payload of `TenantCreatedDomainEvent`
unfoldable pub created_payload : Text → Text → Text → Text → Text → Fields
created_payload organization_id name slug plan owner_id =
    field "organizationId" (str organization_id) (
      field "name" (str name)
        (field "slug" (str slug) (field "plan" (str plan) (field "ownerId" (str owner_id) end))))

-- The payload of `TenantProvisionedDomainEvent`
unfoldable pub provisioned_payload : Text → Text → ℕ → Fields
provisioned_payload organization_id default_project_id provisioned_at =
    field "organizationId" (str organization_id) (
      field "defaultProjectId" (str default_project_id)
        (field "provisionedAt" (date provisioned_at) end))

-- The payload of `TenantSuspendedDomainEvent`
unfoldable pub suspended_payload : Text → Text → Text → ℕ → Fields
suspended_payload organization_id reason suspended_by suspended_at =
    field "organizationId" (str organization_id) (
      field "reason" (str reason)
        (field "suspendedBy" (str suspended_by) (field "suspendedAt" (date suspended_at) end)))

pub record CreateParams : Type 0 where
  pub name : Text
  pub slug : Text
  pub plan_tier : TenantPlanTier
  pub owner_id : Text
  pub correlation_id : Text

abbrev pub initial_settings : OrganizationSettings
initial_settings = record {
  allow_public_signup = false;
  enforces_mfa = false;
  sso_enabled = false;
  audit_enabled = true;
}

unfoldable pub create : CaseMapping → CreateParams → Text → ℕ → ℕ → Text → ℕ → Result Organization
unfolding reconstitute add_domain_event created_payload new_domain_event
create case params organization_id now now' event_id event_time = do
  slug ← Slug.create case params.slug
  ok (
      add_domain_event
        (new_domain_event "TenantCreatedDomainEvent"
          (event_of organization_id params.correlation_id (some params.owner_id))
          (created_payload organization_id params.name slug.value (tier_value params.plan_tier)
            params.owner_id)
          event_id event_time)
        (reconstitute
          (record {
            organization_id = organization_id;
            name = params.name;
            slug = slug;
            plan = for_tier params.plan_tier;
            status = provisioning;
            owner_id = params.owner_id;
            provisioned_at = none;
            settings = initial_settings;
            created_at = none;
            updated_at = none;
          })
          now now'))

abbrev pub is_status : TenantStatus → TenantStatus → Bool
is_status provisioning provisioning = true
is_status active active = true
is_status suspended suspended = true
is_status TenantStatus.deprovisioning TenantStatus.deprovisioning = true
is_status TenantStatus.deleted TenantStatus.deleted = true
is_status _ _ = false

abbrev pub bad_status : String → TenantStatus → Exception
bad_status template status =
    conflict (record { template = template; values = status_value status ∷ [] })

unfoldable pub mark_provisioned :
    Text → Text → ℕ → ℕ → Text → ℕ → Organization → Result Organization
unfolding touch add_domain_event new_domain_event provisioned_payload
mark_provisioned default_project_id correlation_id provisioned_at touched event_id event_time org =
    throw_if (not (is_status org.status provisioning))
      (bad_status "Cannot provision organization in status: {}" org.status)
    >> ok (
        add_domain_event
          (new_domain_event "TenantProvisionedDomainEvent" (event_of org.id correlation_id none)
            (provisioned_payload org.id default_project_id provisioned_at) event_id event_time)
          (record org {
            base = touch touched org.base;
            status = active;
            provisioned_at = some provisioned_at;
          }))

unfoldable pub suspend : Text → Text → Text → ℕ → ℕ → Text → ℕ → Organization → Result Organization
unfolding touch add_domain_event new_domain_event suspended_payload
suspend reason suspended_by correlation_id suspended_at touched event_id event_time org =
    throw_if (not (is_status org.status active))
      (bad_status "Cannot suspend organization in status: {}" org.status)
    >> ok (
        add_domain_event
          (new_domain_event "TenantSuspendedDomainEvent"
            (event_of org.id correlation_id (some suspended_by))
            (suspended_payload org.id reason suspended_by suspended_at) event_id event_time)
          (record org { base = touch touched org.base; status = suspended }))

unfoldable pub rename : Text → ℕ → Organization → Result Organization
unfolding touch
rename new_name touched org =
    let trimmed = trim new_name in
    throw_if (ltb (length trimmed) 2 || ltb 100 (length trimmed)) (
      conflict (record {
        template = "Organization name must be between 2 and 100 characters";
        values = [];
      }))
    >> ok (
        if trimmed === org.name
        then org
        else record org { base = touch touched org.base; name = trimmed })

abbrev pub same_tier : TenantPlanTier → TenantPlanTier → Bool
same_tier TenantPlanTier.free TenantPlanTier.free = true
same_tier TenantPlanTier.starter TenantPlanTier.starter = true
same_tier TenantPlanTier.pro TenantPlanTier.pro = true
same_tier TenantPlanTier.enterprise TenantPlanTier.enterprise = true
same_tier _ _ = false

unfoldable pub change_plan : TenantPlanTier → ℕ → Organization → Organization
unfolding touch
change_plan plan_tier touched org =
    if same_tier org.plan.tier plan_tier
    then org
    else record org { base = touch touched org.base; plan = for_tier plan_tier }

unfoldable pub reactivate : ℕ → Organization → Result Organization
unfolding touch
reactivate touched org =
    throw_if (not (is_status org.status suspended))
      (bad_status "Cannot reactivate organization in status: {}" org.status)
    >> ok (record org { base = touch touched org.base; status = active })

unfoldable pub update_settings : SettingsPatch → ℕ → Organization → Organization
unfolding touch
update_settings patch touched org = record org {
  base = touch touched org.base;
  settings = record {
    allow_public_signup = get_or patch.allow_public_signup org.settings.allow_public_signup;
    enforces_mfa = get_or patch.enforces_mfa org.settings.enforces_mfa;
    sso_enabled = get_or patch.sso_enabled org.settings.sso_enabled;
    audit_enabled = get_or patch.audit_enabled org.settings.audit_enabled;
  };
}

-- The getter `isActive`
unfoldable pub is_active : Organization → Bool
is_active org = is_status org.status active
