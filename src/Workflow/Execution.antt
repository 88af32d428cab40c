-- ===== src/Workflow/Execution.antt =====
-- workflow/domain/entities/workflow-execution.entity.ts
pub mod Lifecycle
use multi_tenant_saa_s_platf.Base.{
  ℕ, ℤ, difference, Bool, true, false, not, ◌||◌, Option, none, some, List, [], ◌∷◌, Text, codes,
  String, Result, ok, fail, Exception, conflict, throw_if, ◌>>=◌, ◌>>◌, is_truthy,
}
use multi_tenant_saa_s_platf.Kernel.Entity.{Entity, new_entity, touch}
use multi_tenant_saa_s_platf.Kernel.Json.{Fields, Json}

pub data WorkflowExecutionStatus : Type 0 where
  pending running completed failed cancelled : WorkflowExecutionStatus

unfoldable pub execution_status_value : WorkflowExecutionStatus → Text
unfolding codes
execution_status_value pending = codes "pending"
execution_status_value running = codes "running"
execution_status_value completed = codes "completed"
execution_status_value failed = codes "failed"
execution_status_value cancelled = codes "cancelled"

pub data TriggerType : Type 0 where
  manual event schedule : TriggerType

unfoldable pub trigger_type_value : TriggerType → Text
unfolding codes
trigger_type_value manual = codes "manual"
trigger_type_value event = codes "event"
trigger_type_value schedule = codes "schedule"

-- A step result is carried along as the object that it is.
pub record WorkflowExecutionProps : Type 0 where
  pub execution_id : Text
  pub definition_id : Text
  pub tenant_id : Text
  pub correlation_id : Text
  pub triggered_by : Text
  pub trigger_type : TriggerType
  pub input : Fields
  pub status : WorkflowExecutionStatus
  pub step_results : List Json
  pub started_at : Option ℕ
  pub completed_at : Option ℕ
  pub duration_ms : Option ℤ
  pub error_message : Option Text
  pub created_at : Option ℕ

pub record WorkflowExecution : Type 0 where
  pub base : Entity
  pub open base use *
  pub definition_id : Text
  pub tenant_id : Text
  pub correlation_id : Text
  pub triggered_by : Text
  pub trigger_type : TriggerType
  pub input : Fields
  pub status : WorkflowExecutionStatus
  pub step_results : List Json
  pub started_at : Option ℕ
  pub completed_at : Option ℕ
  pub duration_ms : Option ℤ
  pub error_message : Option Text

-- The constructor, which `reconstitute` is too.
unfoldable pub reconstitute : WorkflowExecutionProps → ℕ → ℕ → WorkflowExecution
unfolding new_entity
reconstitute props now now' = record {
  base =
      new_entity
        (record { id = some props.execution_id; created_at = props.created_at; updated_at = none })
        props.execution_id now now';
  definition_id = props.definition_id;
  tenant_id = props.tenant_id;
  correlation_id = props.correlation_id;
  triggered_by = props.triggered_by;
  trigger_type = props.trigger_type;
  input = props.input;
  status = props.status;
  step_results = props.step_results;
  started_at = props.started_at;
  completed_at = props.completed_at;
  duration_ms = props.duration_ms;
  error_message = props.error_message;
}

-- `Omit<WorkflowExecutionProps, 'executionId' | 'status' | 'stepResults'>`
pub record CreateParams : Type 0 where
  pub definition_id : Text
  pub tenant_id : Text
  pub correlation_id : Text
  pub triggered_by : Text
  pub trigger_type : TriggerType
  pub input : Fields
  pub started_at : Option ℕ
  pub completed_at : Option ℕ
  pub duration_ms : Option ℤ
  pub error_message : Option Text
  pub created_at : Option ℕ

unfoldable pub create : CreateParams → Text → ℕ → ℕ → WorkflowExecution
unfolding reconstitute
create params execution_id now now' =
    reconstitute
      (record {
        execution_id = execution_id;
        status = pending;
        step_results = [];
        definition_id = params.definition_id;
        tenant_id = params.tenant_id;
        correlation_id = params.correlation_id;
        triggered_by = params.triggered_by;
        trigger_type = params.trigger_type;
        input = params.input;
        started_at = params.started_at;
        completed_at = params.completed_at;
        duration_ms = params.duration_ms;
        error_message = params.error_message;
        created_at = params.created_at;
      })
      now now'

abbrev pub bad_status : String → WorkflowExecutionStatus → Exception
bad_status template status =
    conflict (record { template = template; values = execution_status_value status ∷ [] })

abbrev pub is_pending : WorkflowExecutionStatus → Bool
is_pending pending = true
is_pending _ = false

-- `completed`, `failed` or `cancelled`
abbrev pub is_terminal : WorkflowExecutionStatus → Bool
is_terminal completed = true
is_terminal failed = true
is_terminal cancelled = true
is_terminal _ = false

-- `if (this._startedAt) this._durationMs = completedAt - startedAt;`
abbrev pub elapsed : ℕ → Option ℕ → Option ℤ → Option ℤ
elapsed completed_at none duration = duration
elapsed completed_at (some started_at) duration = some (difference completed_at started_at)

-- The arguments of an operation are the readings of the clock.
unfoldable pub start : ℕ → ℕ → WorkflowExecution → Result WorkflowExecution
unfolding touch
start now touched e =
    throw_if (not (is_pending e.status))
      (bad_status "Cannot start execution in status: {}" e.status)
    >> ok (record e { base = touch touched e.base; status = running; started_at = some now })

-- `complete`, which does nothing with the output that it is given
unfoldable pub complete : ℕ → ℕ → WorkflowExecution → WorkflowExecution
unfolding touch
complete now touched e = record e {
  base = touch touched e.base;
  status = completed;
  completed_at = some now;
  duration_ms = elapsed now e.started_at e.duration_ms;
}

-- `fail`
unfoldable pub fail_with : Text → ℕ → ℕ → WorkflowExecution → WorkflowExecution
unfolding touch
fail_with error_message now touched e = record e {
  base = touch touched e.base;
  status = failed;
  completed_at = some now;
  error_message = some error_message;
}

-- `if (reason) this._errorMessage = reason;`
abbrev pub error_of : Option Text → Option Text → Option Text
error_of none error_message = error_message
error_of (some reason) error_message = elim (is_truthy reason) [
  | true ↦ some reason
  | false ↦ error_message
]

unfoldable pub cancel : Option Text → ℕ → ℕ → WorkflowExecution → Result WorkflowExecution
unfolding touch
cancel reason now touched e =
    throw_if (is_terminal e.status)
      (bad_status "Cannot cancel execution in terminal status: {}" e.status)
    >> ok (record e {
      base = touch touched e.base;
      status = cancelled;
      completed_at = some now;
      duration_ms = elapsed now e.started_at e.duration_ms;
      error_message = error_of reason e.error_message;
    })
