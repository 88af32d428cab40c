-- ===== src/Api/Organizations.antt =====
-- tenant-core/api/tenant-core.controller.ts. Bodies are those that the validation lets through.
use multi_tenant_saa_s_platf.Base.{
  Option, none, some, [], ◌∷◌, Text, codes, Result, CaseMapping, get_or, ◌>>=◌ as bind, ok,
}
use multi_tenant_saa_s_platf.Base.Actions.{Action, lift, ◌>>=◌}
use multi_tenant_saa_s_platf.Kernel.Tenancy.{TenantPlanTier, free, viewer, admin, owner}
use multi_tenant_saa_s_platf.Kernel.Repository.{Repository}
use multi_tenant_saa_s_platf.Events.Envelope.{EventBus}
use multi_tenant_saa_s_platf.TenantCore.Repository.{organization_column}
use multi_tenant_saa_s_platf.TenantCore.Commands.{
  OrganizationDto, Supply, World, execute_create, execute_update, execute_suspend,
}
use multi_tenant_saa_s_platf.Api.Calls.{Call, context_of, enter, tenant_param}

pub record CreateOrganizationBody : Type 0 where
  pub name : Text
  pub slug : Text
  pub plan_tier : Option TenantPlanTier

pub record UpdateOrganizationBody : Type 0 where
  pub name : Option Text
  pub plan_tier : Option TenantPlanTier

-- `getOrganization`, which looks nothing up: it gives its two parameters back.
unfoldable pub get_organization : Call → Text → Result (Text × Text)
unfolding enter tenant_param
get_organization call id =
    bind (enter (some (viewer ∷ [])) call.user)
      λ user. bind (tenant_param call) λ tenant_id. ok (id, tenant_id)

module _ (case : CaseMapping) (repo : Repository organization_column) (bus : EventBus) where
  -- `createOrganization`, which asks for no role
  unfoldable pub create_organization :
      Call → CreateOrganizationBody → Supply → Action (World case repo bus) OrganizationDto
  unfolding enter execute_create
  create_organization call body supply = do
    user ← lift (enter none call.user)
    execute_create case repo bus
        (record {
          name = body.name;
          slug = body.slug;
          plan_tier = get_or body.plan_tier free;
          correlation_id = call.command_correlation;
          actor_id = some user.sub;
        })
        supply

  unfoldable pub update_organization :
      Call → Text → UpdateOrganizationBody → Supply → Action (World case repo bus) OrganizationDto
  unfolding enter tenant_param context_of execute_update
  update_organization call id body supply = do
    user ← lift (enter (some (admin ∷ [])) call.user)
    tenant_id ← lift (tenant_param call)
    execute_update case repo bus (context_of call)
        (record { organization_id = id; name = body.name; plan_tier = body.plan_tier }) supply

  unfoldable pub suspend_organization :
      Call → Text → Option Text → Supply → Action (World case repo bus) OrganizationDto
  unfolding enter tenant_param context_of execute_suspend codes
  suspend_organization call id reason supply = do
    user ← lift (enter (some (owner ∷ [])) call.user)
    tenant_id ← lift (tenant_param call)
    execute_suspend case repo bus (context_of call)
        (record {
          organization_id = id;
          reason = get_or reason (codes "No reason provided");
          correlation_id = call.command_correlation;
          actor_id = some user.sub;
        })
        supply
