-- ===== src/Tests/Workflow.antt =====
-- The theorems on workflows at concrete inputs.
use multi_tenant_saa_s_platf.Base.{
  ◌≡◌, ◌≤◌, refl, none, some, [], ◌∷◌, ok, fail, Exception, arith, ◌===◌, All,
}
use multi_tenant_saa_s_platf.Kernel.Json.{end}
use multi_tenant_saa_s_platf.Kernel.Context.{try_get_tenant_id}
use multi_tenant_saa_s_platf.Kernel.Entity.{new_entity}
use multi_tenant_saa_s_platf.Kernel.Pagination.{build_pagination_meta}
use multi_tenant_saa_s_platf.Kernel.Repository.{
  matches, fits, scoped_where, scoped_qb, spread, require_tenant_id, guard_tenant_ownership,
  where_only, and_where, create_query_builder,
}
use multi_tenant_saa_s_platf.Kernel.Repository.Isolation.{ActsFor}
use multi_tenant_saa_s_platf.Kernel.Repository.Memory.{
  memory, holding, first, upsert, run_query, window,
}
use multi_tenant_saa_s_platf.Workflow.Definition
use multi_tenant_saa_s_platf.Workflow.Execution
use multi_tenant_saa_s_platf.Workflow.Execution.{
  WorkflowExecution, TriggerType, pending, running, completed, failed, cancelled, start, complete,
  fail_with, cancel, execution_status_value,
}
use multi_tenant_saa_s_platf.Workflow.Execution.Lifecycle.{
  finished, here, stepped, IsSound, execution-IsSound,
}
use multi_tenant_saa_s_platf.Workflow.Repositories.{
  execution_column, definition_column, find_execution, find_definition, find_many, save_execution,
  paged, execution_to_domain, execution_to_orm, definition_to_domain,
}
use multi_tenant_saa_s_platf.Workflow.Repositories.Isolation.{
  find_execution-own, save_execution-own, listings-own,
}
use multi_tenant_saa_s_platf.Workflow.Commands.{
  TriggerWorkflowCommand, Supply, execute_trigger, execute_cancel, new_execution, triggered_event,
}
use multi_tenant_saa_s_platf.Workflow.Commands.Outcomes.{
  execute_trigger-IsTriggerable, execute_cancel-cases, IsTriggerable,
}
use multi_tenant_saa_s_platf.Tests.Fixtures.{
  acme, zoo, ann, ctx_of, log, execution_row, definition_row,
}

abbrev execution : WorkflowExecution
execution = record {
  base = record { id = zoo; created_at = 4; updated_at = 9 };
  definition_id = zoo;
  tenant_id = acme;
  correlation_id = [];
  triggered_by = ann;
  trigger_type = TriggerType.manual;
  input = end;
  status = running;
  step_results = [];
  started_at = some 5;
  completed_at = none;
  duration_ms = none;
  error_message = none;
}

find_execution-own_example :
    ActsFor (some (ctx_of acme)) acme
    × (zoo ≡ zoo)
    × (execution_row acme zoo ∷ [] ≡ execution_row acme zoo ∷ [])
unfolding find_execution scoped_where require_tenant_id try_get_tenant_id spread memory first
    matches execution_column ◌===◌ execution_to_domain Execution.reconstitute new_entity
find_execution-own_example =
    find_execution-own (memory execution_column) (some (ctx_of acme)) 8 9 zoo
      (execution_row acme zoo ∷ []) (execution_row acme zoo ∷ []) execution refl

save_execution-own_example :
    (x : Exception) × (save_execution
        (memory execution_column)
        (some (ctx_of zoo))
        8
        9
        execution
        (holding execution_column [])
      ≡ (fail x, holding execution_column []))
save_execution-own_example =
    (save_execution-own (memory execution_column) (some (ctx_of zoo)) 8 9 execution execution
        (holding execution_column []) (holding execution_column [])).1
      (λ a. ground arith)

listings-own_example :
    All (λ e. ActsFor (some (ctx_of acme)) e.tenant_id) (execution ∷ [])
    × (1 ≤ 100)
    × (20 ≤ 100)
    × (execution_row acme zoo ∷ execution_row zoo acme ∷ []
        ≡ execution_row acme zoo ∷ execution_row zoo acme ∷ [])
unfolding find_many paged scoped_qb where_only and_where create_query_builder require_tenant_id
    try_get_tenant_id memory run_query window fits execution_column ◌===◌ execution_to_domain
    Execution.reconstitute new_entity build_pagination_meta execution_status_value
listings-own_example =
    (listings-own (memory execution_column) (some (ctx_of acme)) 8 9 none []
        (record { page = none; limit = none })
        (execution_row acme zoo ∷ execution_row zoo acme ∷ [])
        (execution_row acme zoo ∷ execution_row zoo acme ∷ [])
        (record { items = execution ∷ []; meta = build_pagination_meta 1 20 1 })).0
      refl

abbrev by_hand : Execution.CreateParams
by_hand = record {
  definition_id = zoo;
  tenant_id = acme;
  correlation_id = [];
  triggered_by = ann;
  trigger_type = TriggerType.manual;
  input = end;
  started_at = none;
  completed_at = none;
  duration_ms = none;
  error_message = none;
  created_at = none;
}

execution-IsSound_example : IsSound (complete 7 8 (Execution.create by_hand zoo 1 2))
execution-IsSound_example =
    execution-IsSound by_hand zoo 1 2 (complete 7 8 (Execution.create by_hand zoo 1 2)) refl refl
      (stepped _ _ here (finished _ 7 8))

abbrev command : TriggerWorkflowCommand
command = record {
  tenant_id = acme;
  correlation_id = [];
  actor_id = some ann;
  definition_id = zoo;
  trigger_type = TriggerType.manual;
  input = end;
}

abbrev supply : Supply
supply = record {
  execution_id = ann;
  created = 1;
  updated = 2;
  loaded = 3;
  loaded_again = 4;
  now = 5;
  touched = 6;
  occurred = 7;
}

abbrev the_definition : Definition.WorkflowDefinition
the_definition = record {
  base = record { id = zoo; created_at = 1; updated_at = 2 };
  tenant_id = acme;
  name = zoo;
  description = none;
  trigger = record {
    type = Definition.manual;
    event_type = none;
    schedule = none;
    webhook_path = none;
  };
  steps = [];
  version = 1;
  status = Definition.active;
  created_by = ann;
}

abbrev the_execution : WorkflowExecution
the_execution = record execution {
  base = record { id = ann; created_at = 3; updated_at = 4 };
  status = pending;
  started_at = none;
}

execute_cancel-cases_example :
    execute_cancel
      (memory execution_column)
      (some (ctx_of acme))
      (record { execution_id = zoo; reason = none })
      supply
      (holding execution_column (record (execution_row acme zoo) { status = completed } ∷ []))
    ≡ (
      fail (Execution.bad_status "Cannot cancel execution in terminal status: {}" completed),
      holding execution_column (record (execution_row acme zoo) { status = completed } ∷ []),
    )
unfolding holding find_execution scoped_where require_tenant_id try_get_tenant_id spread memory
    first matches execution_column ◌===◌ execution_to_domain Execution.reconstitute new_entity
execute_cancel-cases_example =
    (execute_cancel-cases (memory execution_column) (some (ctx_of acme))
        (record { execution_id = zoo; reason = none }) supply
        (record execution {
          base = record { id = zoo; created_at = 4; updated_at = 4 };
          status = completed;
        })
        (holding execution_column (record (execution_row acme zoo) { status = completed } ∷ []))
        refl).0
      refl

execute_trigger-IsTriggerable_example :
    (definition : Definition.WorkflowDefinition) × (saved : WorkflowExecution) × IsTriggerable
      (memory definition_column)
      (memory execution_column)
      log
      (some (ctx_of acme))
      command
      supply
      (holding definition_column (definition_row acme zoo ∷ []))
      (holding execution_column [])
      []
      definition
    × ActsFor (some (ctx_of acme)) acme
    × (save_execution
          (memory execution_column)
          (some (ctx_of acme))
          3
          4
          (new_execution command supply definition)
          (holding execution_column [])
        ≡ (
          ok saved,
          holding execution_column (
              record (execution_row acme ann) {
                definition_id = zoo;
                status = pending;
                started_at = none;
                created_at = none;
              }
              ∷ []),
        ))
    × (log.publish (triggered_event command supply definition saved) []
        ≡ (ok tt, triggered_event command supply the_definition the_execution ∷ []))
    × (ann ≡ saved.id)
    × (holding definition_column (definition_row acme zoo ∷ [])
        ≡ holding definition_column (definition_row acme zoo ∷ []))
unfolding holding execute_trigger find_definition definition_to_domain Definition.reconstitute
    Definition.is_active new_execution Execution.create save_execution guard_tenant_ownership
    execution_to_orm upsert scoped_where require_tenant_id try_get_tenant_id spread memory first
    matches execution_column definition_column ◌===◌ execution_to_domain Execution.reconstitute
    new_entity
execute_trigger-IsTriggerable_example =
    execute_trigger-IsTriggerable (memory definition_column) (memory execution_column) log
      (some (ctx_of acme)) command supply (holding definition_column (definition_row acme zoo ∷ []))
      (holding execution_column []) []
      (record { execution_id = ann; definition_id = zoo; status = pending })
      (holding definition_column (definition_row acme zoo ∷ []))
      (holding execution_column (
        record (execution_row acme ann) {
          definition_id = zoo;
          status = pending;
          started_at = none;
          created_at = none;
        }
        ∷ []))
      (triggered_event command supply the_definition the_execution ∷ []) refl
