-- ===== src/Tests/Fixtures.antt =====
-- The data that the tests share.
use multi_tenant_saa_s_platf.Base.{none, some, List, [], ◌∷◌, Text, ok, refl, arith}
use multi_tenant_saa_s_platf.Kernel.Context.{TenantContext}
use multi_tenant_saa_s_platf.Kernel.Tenancy.{free, active}
use multi_tenant_saa_s_platf.Kernel.Repository.Isolation.{ActsFor}
use multi_tenant_saa_s_platf.Events.Envelope.{EventBus, TenantAwareEvent}
use multi_tenant_saa_s_platf.Kernel.Json.{end}
use multi_tenant_saa_s_platf.Workflow.Execution.{manual, running}
use multi_tenant_saa_s_platf.Workflow.Definition
use multi_tenant_saa_s_platf.Workflow.Repositories.{ExecutionOrm, DefinitionOrm}
use multi_tenant_saa_s_platf.TenantCore.Organization.{initial_settings}
use multi_tenant_saa_s_platf.TenantCore.Organization.Mapper.{OrganizationOrm}

-- The tenants "acme" and "zoo1", and the user "ann"
abbrev pub acme : Text
acme = b'a' ∷ b'c' ∷ b'm' ∷ b'e' ∷ []

abbrev pub zoo : Text
zoo = b'z' ∷ b'o' ∷ b'o' ∷ b'1' ∷ []

abbrev pub ann : Text
ann = b'a' ∷ b'n' ∷ b'n' ∷ []

abbrev pub ctx_of : Text → TenantContext
ctx_of tenant = record {
  tenant_id = tenant;
  correlation_id = [];
  request_id = [];
  actor_id = none;
  timestamp = 0;
  ip_address = none;
  user_agent = none;
}

abbrev pub row_of : Text → OrganizationOrm
row_of id = record {
  id = id;
  name = id;
  slug = id;
  plan_tier = free;
  status = active;
  owner_id = ann;
  provisioned_at = some 3;
  settings = initial_settings;
  created_at = 1;
  updated_at = 2;
}

-- A bus that keeps what it is given.
abbrev pub log : EventBus
log = record { State = List TenantAwareEvent; publish = λ e s. (ok tt, e ∷ s) }

pub acme_acts : ActsFor (some (ctx_of acme)) acme
acme_acts = (refl, λ e. cc)

pub zoo_foreign : ¬ ActsFor (some (ctx_of acme)) zoo
zoo_foreign a = ground arith

abbrev pub execution_row : Text → Text → ExecutionOrm
execution_row tenant id = record {
  id = id;
  definition_id = id;
  tenant_id = tenant;
  correlation_id = [];
  triggered_by = ann;
  trigger_type = manual;
  input = end;
  status = running;
  step_results = [];
  started_at = some 5;
  completed_at = none;
  duration_ms = none;
  error_message = none;
  created_at = some 4;
}

abbrev pub definition_row : Text → Text → DefinitionOrm
definition_row tenant id = record {
  id = id;
  tenant_id = tenant;
  name = id;
  description = none;
  trigger = record {
    type = Definition.manual;
    event_type = none;
    schedule = none;
    webhook_path = none;
  };
  steps = [];
  version = 1;
  status = Definition.active;
  created_by = ann;
  created_at = some 1;
  updated_at = some 2;
}
