-- ===== src/TenantCore/Commands.antt =====
-- tenant-core/application: the commands, their handlers and the DTO. The state of a handler is the
-- table of organizations and the event bus; logging is left out. A handler's `Result.fail` is thrown
-- by the controller at once, so it is a throw here.
pub mod Publication
pub mod Outcomes
use multi_tenant_saa_s_platf.Base.{
  ℕ, Bool, true, false, Option, none, some, List, [], ◌∷◌, Text, String, codes, Result, ok, fail,
  Exception, conflict, not_found, CaseMapping, get_or,
}
use multi_tenant_saa_s_platf.Base.Actions.{
  Action, lift, pure, throw, ◌>>=◌, ◌>>◌, on_first, on_second, each,
}
use multi_tenant_saa_s_platf.Kernel.Context.{TenantContext}
use multi_tenant_saa_s_platf.Kernel.Repository.{Repository}
use multi_tenant_saa_s_platf.Kernel.Tenancy.{TenantPlanTier, tier_value, status_value}
use multi_tenant_saa_s_platf.Events.Envelope.{EventBus, TenantAwareEvent, integration_event}
use multi_tenant_saa_s_platf.TenantCore.Organization
use multi_tenant_saa_s_platf.TenantCore.Organization.{Organization}
use multi_tenant_saa_s_platf.TenantCore.Repository.{
  organization_column, find_by_id, save, exists_by_slug, provision,
}

pub record OrganizationDto : Type 0 where
  pub organization_id : Text
  pub name : Text
  pub slug : Text
  pub plan : Text
  pub status : Text
  pub owner_id : Text
  pub provisioned_at : Option ℕ
  pub created_at : ℕ
  pub updated_at : ℕ

unfoldable pub from_aggregate : Organization → OrganizationDto
from_aggregate org = record {
  organization_id = org.id;
  name = org.name;
  slug = org.slug.value;
  plan = tier_value org.plan.tier;
  status = status_value org.status;
  owner_id = org.owner_id;
  provisioned_at = org.provisioned_at;
  created_at = org.created_at;
  updated_at = org.updated_at;
}

pub record CreateOrganizationCommand : Type 0 where
  pub name : Text
  pub slug : Text
  pub plan_tier : TenantPlanTier
  pub correlation_id : Text
  pub actor_id : Option Text

pub record UpdateOrganizationCommand : Type 0 where
  pub organization_id : Text
  pub name : Option Text
  pub plan_tier : Option TenantPlanTier

pub record SuspendOrganizationCommand : Type 0 where
  pub organization_id : Text
  pub reason : Text
  pub correlation_id : Text
  pub actor_id : Option Text

-- The ids and the readings of the clock that a handler uses, by their purpose.
pub record Supply : Type 0 where
  pub owner_id : Text
  pub organization_id : Text
  pub event_id : Text
  pub now : ℕ
  pub touched : ℕ
  pub touched_again : ℕ
  pub event_time : ℕ

abbrev pub params_of : CreateOrganizationCommand → Supply → Organization.CreateParams
params_of command supply = record {
  name = command.name;
  slug = command.slug;
  plan_tier = command.plan_tier;
  owner_id = get_or command.actor_id supply.owner_id;
  correlation_id = command.correlation_id;
}

module _ (case : CaseMapping) (repo : Repository organization_column) (bus : EventBus) where
  abbrev pub World : Type 0
  World = repo.Table × bus.State

  -- The loop that publishes the events of a saved aggregate.
  unfoldable pub publish_all : Text → Organization → Action World (Unit {0})
  unfolding each integration_event
  publish_all event_type saved =
      each (λ e. on_second (bus.publish (integration_event event_type e))) saved.domain_events

  -- `CreateOrganizationHandler.execute`
  unfoldable pub execute_create : CreateOrganizationCommand → Supply → Action World OrganizationDto
  unfolding publish_all from_aggregate
  execute_create command supply = do
    slug_exists ← on_first (exists_by_slug repo command.slug)
    lift (elim slug_exists [
      | true ↦ fail (
          conflict (record {
            template = "Organization with slug '{}' already exists";
            values = command.slug ∷ [];
          }))
      | false ↦ ok tt
    ])
    organization ← lift (
        Organization.create case (params_of command supply) supply.organization_id supply.now
          supply.touched supply.event_id supply.event_time)
    saved ← on_first (provision case repo organization)
    publish_all (codes "tenant.created") saved
    pure (from_aggregate (Organization.clear_domain_events saved))

  module _ (store : Option TenantContext) where
    -- `findById`, and `NotFoundException` for `null`
    unfoldable pub require_organization : Text → Action World Organization
    require_organization id = do
      found ← on_first (find_by_id case repo store id)
      lift (elim found [ none ↦ fail (not_found "Organization" id) | some o ↦ ok o ])

    -- `SuspendOrganizationHandler.execute`
    unfoldable pub execute_suspend :
        SuspendOrganizationCommand → Supply → Action World OrganizationDto
    unfolding require_organization publish_all from_aggregate codes
    execute_suspend command supply = do
      organization ← require_organization command.organization_id
      suspended ← lift (
          Organization.suspend command.reason (get_or command.actor_id (codes "system"))
            command.correlation_id supply.now supply.touched supply.event_id supply.event_time
            organization)
      saved ← on_first (save case repo store suspended)
      publish_all (codes "tenant.suspended") saved
      pure (from_aggregate (Organization.clear_domain_events saved))

    -- `UpdateOrganizationHandler.execute`
    unfoldable pub execute_update :
        UpdateOrganizationCommand → Supply → Action World OrganizationDto
    unfolding require_organization from_aggregate
    execute_update command supply = do
      organization ← require_organization command.organization_id
      renamed ← lift (elim command.name [
        | none ↦ ok organization
        | some name ↦ Organization.rename name supply.touched organization
      ])
      saved ← on_first (
          save case repo store (elim command.plan_tier [
            | none ↦ renamed
            | some tier ↦ Organization.change_plan tier supply.touched_again renamed
          ]))
      pure (from_aggregate saved)
