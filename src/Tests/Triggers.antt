-- ===== src/Tests/Triggers.antt =====
-- The theorem on the definitions that an event triggers, at a concrete table.
use multi_tenant_saa_s_platf.Base.{
  ◌≡◌, ◌↔◌, refl, Bool, true, none, some, [], ◌∷◌, Text, All, length, keep, ◌===◌,
}
use multi_tenant_saa_s_platf.Kernel.Context.{try_get_tenant_id}
use multi_tenant_saa_s_platf.Kernel.Entity.{new_entity}
use multi_tenant_saa_s_platf.Kernel.Repository.{
  fits, scoped_qb, require_tenant_id, where_only, and_where, create_query_builder,
}
use multi_tenant_saa_s_platf.Kernel.Repository.Isolation.{ActsFor}
use multi_tenant_saa_s_platf.Kernel.Repository.Memory.{memory, holding, run_query, window}
use multi_tenant_saa_s_platf.Workflow.Definition
use multi_tenant_saa_s_platf.Workflow.Repositories.{
  DefinitionOrm, definition_column, definition_to_domain,
}
use multi_tenant_saa_s_platf.Workflow.Repositories.Triggers.{
  find_by_trigger_event, IsTriggered, find_by_trigger_event-IsTriggered,
}
use multi_tenant_saa_s_platf.Tests.Fixtures.{acme, zoo, ann, ctx_of, definition_row}

abbrev event_row : DefinitionOrm
event_row = record (definition_row acme zoo) {
  trigger = record {
    type = Definition.event;
    event_type = some ann;
    schedule = none;
    webhook_path = none;
  };
}

abbrev event_definition : Definition.WorkflowDefinition
event_definition = record {
  base = record { id = zoo; created_at = 1; updated_at = 2 };
  tenant_id = acme;
  name = zoo;
  description = none;
  trigger = event_row.trigger;
  steps = [];
  version = 1;
  status = Definition.active;
  created_by = ann;
}

find_by_trigger_event-IsTriggered_example :
    (tenant : Text) × ActsFor (some (ctx_of acme)) tenant
    × All (IsTriggered tenant ann) (event_definition ∷ [])
    × ((p : DefinitionOrm → Bool)
        → ((d : DefinitionOrm) → (p d ≡ true) ↔ IsTriggered tenant ann (definition_to_domain 8 9 d))
        → length (event_definition ∷ [])
          ≡ length (keep p (event_row ∷ definition_row acme ann ∷ definition_row zoo acme ∷ [])))
    × (holding definition_column
          (event_row ∷ definition_row acme ann ∷ definition_row zoo acme ∷ [])
        ≡ holding definition_column
            (event_row ∷ definition_row acme ann ∷ definition_row zoo acme ∷ []))
unfolding holding find_by_trigger_event scoped_qb where_only and_where create_query_builder
    require_tenant_id try_get_tenant_id memory run_query window fits definition_column ◌===◌
    definition_to_domain Definition.reconstitute new_entity
find_by_trigger_event-IsTriggered_example =
    find_by_trigger_event-IsTriggered (memory definition_column) (some (ctx_of acme)) 8 9 ann
      (holding definition_column
        (event_row ∷ definition_row acme ann ∷ definition_row zoo acme ∷ []))
      (holding definition_column
        (event_row ∷ definition_row acme ann ∷ definition_row zoo acme ∷ []))
      (event_definition ∷ []) refl
