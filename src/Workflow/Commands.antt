-- ===== src/Workflow/Commands.antt =====
-- workflow/application: the commands, the queries and their handlers. The state is the two tables
-- and the event bus; logging is left out. A `Result.fail` is thrown by the controller at once.
pub mod Outcomes
use multi_tenant_saa_s_platf.Base.{
  ℕ, ℤ, Bool, true, false, not, Option, none, some, List, [], ◌∷◌, map, Text, codes, Result, ok,
  fail, Exception, error, not_found, get_or, throw_if,
}
use multi_tenant_saa_s_platf.Base.Actions.{Action, lift, pure, ◌>>=◌, ◌>>◌, on_first, on_second}
use multi_tenant_saa_s_platf.Kernel.Json.{Fields, Json, str, obj, field, end}
use multi_tenant_saa_s_platf.Kernel.Context.{TenantContext}
use multi_tenant_saa_s_platf.Kernel.Pagination.{PaginatedResult, PaginationMeta}
use multi_tenant_saa_s_platf.Kernel.Repository.{Repository}
use multi_tenant_saa_s_platf.Events.Envelope.{EventBus, TenantAwareEvent}
use multi_tenant_saa_s_platf.Workflow.Definition
use multi_tenant_saa_s_platf.Workflow.Definition.{WorkflowDefinition}
use multi_tenant_saa_s_platf.Workflow.Execution
use multi_tenant_saa_s_platf.Workflow.Execution.{
  WorkflowExecution, WorkflowExecutionStatus, TriggerType, execution_status_value,
  trigger_type_value,
}
use multi_tenant_saa_s_platf.Workflow.Repositories.{
  execution_column, definition_column, find_execution, find_definition, save_execution, find_many,
}

pub record WorkflowExecutionDto : Type 0 where
  pub execution_id : Text
  pub definition_id : Text
  pub tenant_id : Text
  pub correlation_id : Text
  pub triggered_by : Text
  pub trigger_type : TriggerType
  pub status : WorkflowExecutionStatus
  pub input : Fields
  pub step_results : List Json
  pub started_at : Option ℕ
  pub completed_at : Option ℕ
  pub duration_ms : Option ℤ
  pub error_message : Option Text
  pub created_at : ℕ

unfoldable pub from_entity : WorkflowExecution → WorkflowExecutionDto
from_entity execution = record {
  execution_id = execution.id;
  definition_id = execution.definition_id;
  tenant_id = execution.tenant_id;
  correlation_id = execution.correlation_id;
  triggered_by = execution.triggered_by;
  trigger_type = execution.trigger_type;
  status = execution.status;
  input = execution.input;
  step_results = execution.step_results;
  started_at = execution.started_at;
  completed_at = execution.completed_at;
  duration_ms = execution.duration_ms;
  error_message = execution.error_message;
  created_at = execution.created_at;
}

pub record TriggerWorkflowCommand : Type 0 where
  pub tenant_id : Text
  pub correlation_id : Text
  pub actor_id : Option Text
  pub definition_id : Text
  pub trigger_type : TriggerType
  pub input : Fields

pub record CancelWorkflowExecutionCommand : Type 0 where
  pub execution_id : Text
  pub reason : Option Text

pub record ListWorkflowExecutionsQuery : Type 0 where
  pub status : Option WorkflowExecutionStatus
  pub page : ℕ
  pub limit : ℕ

pub record TriggerWorkflowResult : Type 0 where
  pub execution_id : Text
  pub definition_id : Text
  pub status : WorkflowExecutionStatus

-- The fresh id and the readings of the clock, by their purpose.
pub record Supply : Type 0 where
  pub execution_id : Text
  pub created : ℕ
  pub updated : ℕ
  pub loaded : ℕ
  pub loaded_again : ℕ
  pub now : ℕ
  pub touched : ℕ
  pub occurred : ℕ

-- The `WorkflowTriggeredEvent`
unfoldable pub triggered_event :
    TriggerWorkflowCommand → Supply → WorkflowDefinition → WorkflowExecution → TenantAwareEvent
unfolding codes trigger_type_value
triggered_event command supply definition saved = record {
  event_id = saved.id;
  event_type = codes "workflow.execution.triggered";
  event_version = 1;
  tenant_id = saved.tenant_id;
  correlation_id = saved.correlation_id;
  actor_id = command.actor_id;
  causation_id = none;
  trace_id = none;
  source_service = codes "atlas-saas-platform";
  source_version = none;
  occurred_at = supply.occurred;
  payload = field "executionId" (str saved.id) (
      field "definitionId" (str saved.definition_id) (
        field "definitionName" (str definition.name) (
          field "triggeredBy" (str saved.triggered_by) (
            field "triggerType" (str (trigger_type_value saved.trigger_type))
              (field "input" (obj command.input) end)))));
}

-- The execution that a command asks for.
unfoldable pub new_execution :
    TriggerWorkflowCommand → Supply → WorkflowDefinition → WorkflowExecution
unfolding Execution.create codes
new_execution command supply definition =
    Execution.create
      (record {
        definition_id = definition.id;
        tenant_id = command.tenant_id;
        correlation_id = command.correlation_id;
        triggered_by = get_or command.actor_id (codes "system");
        trigger_type = command.trigger_type;
        input = command.input;
        started_at = none;
        completed_at = none;
        duration_ms = none;
        error_message = none;
        created_at = none;
      })
      supply.execution_id supply.created supply.updated

module _ (definitions : Repository definition_column) (executions : Repository execution_column)
    (bus : EventBus) (store : Option TenantContext) where
  -- `TriggerWorkflowHandler.execute`
  unfoldable pub execute_trigger :
      TriggerWorkflowCommand
      → Supply
      → Action ((definitions.Table × executions.Table) × bus.State) TriggerWorkflowResult
  unfolding triggered_event new_execution
  execute_trigger command supply = do
    found ← on_first (
        on_first (
          find_definition definitions store supply.loaded supply.loaded_again
            command.definition_id))
    definition ← lift (elim found [
      | none ↦ fail (not_found "WorkflowDefinition" command.definition_id)
      | some definition ↦ ok definition
    ])
    lift (
        throw_if (not (Definition.is_active definition)) (
          error (record {
            template = "Workflow definition '{}' is not active";
            values = definition.id ∷ [];
          })))
    saved ← on_first (
        on_second (
          save_execution executions store supply.loaded supply.loaded_again
            (new_execution command supply definition)))
    on_second (bus.publish (triggered_event command supply definition saved))
    pure (record {
      execution_id = saved.id;
      definition_id = saved.definition_id;
      status = saved.status;
    })

module _ (executions : Repository execution_column) (store : Option TenantContext) where
  -- `GetWorkflowExecutionHandler.execute`, which the cancelling handler begins with too
  unfoldable pub require_execution : ℕ → ℕ → Text → Action executions.Table WorkflowExecution
  require_execution now now' execution_id = do
    found ← find_execution executions store now now' execution_id
    lift (elim found [
      | none ↦ fail (not_found "WorkflowExecution" execution_id)
      | some execution ↦ ok execution
    ])

  unfoldable pub execute_get : ℕ → ℕ → Text → Action executions.Table WorkflowExecutionDto
  unfolding require_execution from_entity
  execute_get now now' execution_id = do
    execution ← require_execution now now' execution_id
    pure (from_entity execution)

  -- `CancelWorkflowExecutionHandler.execute`
  unfoldable pub execute_cancel :
      CancelWorkflowExecutionCommand → Supply → Action executions.Table WorkflowExecutionDto
  unfolding require_execution from_entity
  execute_cancel command supply = do
    execution ← require_execution supply.loaded supply.loaded_again command.execution_id
    cancelled ← lift (Execution.cancel command.reason supply.now supply.touched execution)
    saved ← save_execution executions store supply.loaded supply.loaded_again cancelled
    pure (from_entity saved)

  -- `ListWorkflowExecutionsHandler.execute`
  unfoldable pub execute_list :
      ListWorkflowExecutionsQuery
      → ℕ
      → ℕ
      → Action executions.Table (PaginatedResult WorkflowExecutionDto)
  unfolding from_entity
  execute_list query now now' = do
    result ←
        find_many executions store now now' query.status
          (record { page = some query.page; limit = some query.limit })
    pure (record { items = map from_entity result.items; meta = result.meta })
