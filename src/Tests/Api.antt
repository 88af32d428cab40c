-- ===== src/Tests/Api.antt =====
-- The theorems on the endpoints at concrete inputs.
use multi_tenant_saa_s_platf.Base.{
  ◌≡◌, refl, none, some, [], ◌∷◌, codes, fail, Exception, arith, ascii,
}
use multi_tenant_saa_s_platf.Kernel.Repository.Memory.{memory, holding}
use multi_tenant_saa_s_platf.TenantCore.Repository.{organization_column}
use multi_tenant_saa_s_platf.TenantCore.Commands.{Supply}
use multi_tenant_saa_s_platf.Workflow.Repositories.{execution_column}
use multi_tenant_saa_s_platf.Workflow.Commands
use multi_tenant_saa_s_platf.Http.Rbac.{JwtUser}
use multi_tenant_saa_s_platf.Api.Calls.{Call}
use multi_tenant_saa_s_platf.Api.Organizations.{
  UpdateOrganizationBody, update_organization, suspend_organization,
}
use multi_tenant_saa_s_platf.Api.Executions.{cancel_execution}
use multi_tenant_saa_s_platf.Api.Access.{
  of_tenant, organization_endpoints-HasRole, token_tenant_ignored,
}
use multi_tenant_saa_s_platf.Tests.Fixtures.{acme, zoo, ann, log, row_of, execution_row}

-- An owner's token for "acme"
abbrev user : JwtUser
user = record { sub = ann; tenant_id = acme; email = ann; role = codes "owner" }

-- A call with that token whose header says "zoo1"
abbrev call : Call
call = record {
  request = record {
    tenant_header = some zoo;
    correlation_header = none;
    user_agent_header = none;
    remote_address = none;
    user_tenant_id = none;
  };
  user = some user;
  request_id = ann;
  fresh_correlation = ann;
  command_correlation = ann;
  arrived = 9;
}

abbrev body : UpdateOrganizationBody
body = record { name = some acme; plan_tier = none }

abbrev supply : Supply
supply = record {
  owner_id = ann;
  organization_id = zoo;
  event_id = ann;
  now = 4;
  touched = 5;
  touched_again = 6;
  event_time = 7;
}

abbrev execution_supply : Commands.Supply
execution_supply = record {
  execution_id = ann;
  created = 1;
  updated = 2;
  loaded = 3;
  loaded_again = 4;
  now = 5;
  touched = 6;
  occurred = 7;
}

-- The header says "zoo1", so nothing can be done to "acme".
organization_endpoints-HasRole_example :
    (x : Exception) × (suspend_organization ascii
        (memory organization_column)
        log
        call
        acme
        none
        supply
        (holding organization_column (row_of acme ∷ []), [])
      ≡ (fail x, (holding organization_column (row_of acme ∷ []), [])))
organization_endpoints-HasRole_example =
    (organization_endpoints-HasRole ascii (memory organization_column) log call acme supply
        (holding organization_column (row_of acme ∷ [])) [] body none).1
      (λ (role, header). ground arith)

token_tenant_ignored_example :
    (update_organization ascii
        (memory organization_column)
        log
        (of_tenant call user acme)
        zoo
        body
        supply
        (holding organization_column (row_of zoo ∷ []), [])
      ≡ update_organization ascii
          (memory organization_column)
          log
          (of_tenant call user zoo)
          zoo
          body
          supply
          (holding organization_column (row_of zoo ∷ []), []))
    × (suspend_organization ascii
          (memory organization_column)
          log
          (of_tenant call user acme)
          zoo
          none
          supply
          (holding organization_column (row_of zoo ∷ []), [])
        ≡ suspend_organization ascii
            (memory organization_column)
            log
            (of_tenant call user zoo)
            zoo
            none
            supply
            (holding organization_column (row_of zoo ∷ []), []))
    × (cancel_execution
          (memory execution_column)
          (of_tenant call user acme)
          zoo
          none
          execution_supply
          (holding execution_column (execution_row zoo zoo ∷ []))
        ≡ cancel_execution
            (memory execution_column)
            (of_tenant call user zoo)
            zoo
            none
            execution_supply
            (holding execution_column (execution_row zoo zoo ∷ [])))
token_tenant_ignored_example =
    token_tenant_ignored ascii (memory organization_column) log (memory execution_column) call user
      acme zoo zoo zoo body none supply execution_supply
      (holding organization_column (row_of zoo ∷ []), [])
      (holding execution_column (execution_row zoo zoo ∷ [])) refl
