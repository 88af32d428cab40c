-- ===== src/Workflow/Repositories.antt =====
-- workflow/infrastructure/persistence: the repositories of executions and of definitions. Pages are
-- numbered from 1, so that no page is skipped backwards.
pub mod Isolation
pub mod Triggers
use text.Mathlib.Text.{◌==◌ as str_eq}
use multi_tenant_saa_s_platf.Base.{
  ℕ, ℤ, ◌-◌, ◌*◌, min, Bool, true, false, Option, none, some, List, [], ◌∷◌, map, Text, String,
  Result, ok, fail, ◌===◌, if◌then◌else◌, get_or, map_option, ◌>>=◌ as bind, ltb,
}
use multi_tenant_saa_s_platf.Base.Actions.{Action, lift, reading, pure, ◌>>=◌, ◌>>◌}
use multi_tenant_saa_s_platf.Kernel.Json.{Fields, Json}
use multi_tenant_saa_s_platf.Kernel.Context.{TenantContext}
use multi_tenant_saa_s_platf.Kernel.Pagination.{
  PaginationOptions, PaginatedResult, build_pagination_meta,
}
use multi_tenant_saa_s_platf.Kernel.Repository.{
  Repository, SelectQuery, and_where, scoped_where, scoped_qb, guard_tenant_ownership,
}
use multi_tenant_saa_s_platf.Workflow.Definition
use multi_tenant_saa_s_platf.Workflow.Definition.{
  WorkflowDefinition, WorkflowDefinitionStatus, WorkflowStep, WorkflowTrigger,
}
use multi_tenant_saa_s_platf.Workflow.Execution
use multi_tenant_saa_s_platf.Workflow.Execution.{
  WorkflowExecution, WorkflowExecutionStatus, TriggerType, execution_status_value,
}

-- The dates that the database fills in may be absent.
pub record ExecutionOrm : Type 0 where
  pub id : Text
  pub definition_id : Text
  pub tenant_id : Text
  pub correlation_id : Text
  pub triggered_by : Text
  pub trigger_type : TriggerType
  pub input : Fields
  pub status : WorkflowExecutionStatus
  pub step_results : List Json
  pub started_at : Option ℕ
  pub completed_at : Option ℕ
  pub duration_ms : Option ℤ
  pub error_message : Option Text
  pub created_at : Option ℕ

unfoldable pub execution_column : String → ExecutionOrm → Text
unfolding execution_status_value
execution_column k e =
    if str_eq k "tenantId"
    then e.tenant_id
    else if str_eq k "id"
    then e.id
    else if str_eq k "definitionId"
    then e.definition_id
    else execution_status_value e.status

-- The last arguments are the readings of the clock for the dates that are absent.
unfoldable pub execution_to_domain : ℕ → ℕ → ExecutionOrm → WorkflowExecution
unfolding Execution.reconstitute
execution_to_domain now now' orm =
    Execution.reconstitute
      (record {
        execution_id = orm.id;
        definition_id = orm.definition_id;
        tenant_id = orm.tenant_id;
        correlation_id = orm.correlation_id;
        triggered_by = orm.triggered_by;
        trigger_type = orm.trigger_type;
        input = orm.input;
        status = orm.status;
        step_results = orm.step_results;
        started_at = orm.started_at;
        completed_at = orm.completed_at;
        duration_ms = orm.duration_ms;
        error_message = orm.error_message;
        created_at = orm.created_at;
      })
      now now'

-- `toOrm` sets no date of creation.
unfoldable pub execution_to_orm : WorkflowExecution → ExecutionOrm
execution_to_orm entity = record {
  id = entity.id;
  definition_id = entity.definition_id;
  tenant_id = entity.tenant_id;
  correlation_id = entity.correlation_id;
  triggered_by = entity.triggered_by;
  trigger_type = entity.trigger_type;
  input = entity.input;
  status = entity.status;
  step_results = entity.step_results;
  started_at = entity.started_at;
  completed_at = entity.completed_at;
  duration_ms = entity.duration_ms;
  error_message = entity.error_message;
  created_at = none;
}

pub record DefinitionOrm : Type 0 where
  pub id : Text
  pub tenant_id : Text
  pub name : Text
  pub description : Option Text
  pub trigger : WorkflowTrigger
  pub steps : List WorkflowStep
  pub version : ℕ
  pub status : WorkflowDefinitionStatus
  pub created_by : Text
  pub created_at : Option ℕ
  pub updated_at : Option ℕ

unfoldable pub definition_column : String → DefinitionOrm → Text
definition_column k d =
    if str_eq k "tenantId" then d.tenant_id else if str_eq k "id" then d.id else d.name

unfoldable pub definition_to_domain : ℕ → ℕ → DefinitionOrm → WorkflowDefinition
unfolding Definition.reconstitute
definition_to_domain now now' orm =
    Definition.reconstitute
      (record {
        definition_id = orm.id;
        tenant_id = orm.tenant_id;
        name = orm.name;
        description = orm.description;
        trigger = orm.trigger;
        steps = orm.steps;
        version = orm.version;
        status = orm.status;
        created_by = orm.created_by;
        created_at = orm.created_at;
        updated_at = orm.updated_at;
      })
      now now'

unfoldable pub definition_to_orm : WorkflowDefinition → DefinitionOrm
definition_to_orm entity = record {
  id = entity.id;
  tenant_id = entity.tenant_id;
  name = entity.name;
  description = entity.description;
  trigger = entity.trigger;
  steps = entity.steps;
  version = entity.version;
  status = entity.status;
  created_by = entity.created_by;
  created_at = none;
  updated_at = none;
}

module _ (repo : Repository execution_column) (store : Option TenantContext) (now now' : ℕ) where
  unfoldable pub find_execution : Text → Action repo.Table (Option WorkflowExecution)
  unfolding execution_to_domain
  find_execution id = do
    conditions ← lift (scoped_where store (("id", id) ∷ []))
    orm ← reading (repo.find_one conditions)
    pure (map_option (execution_to_domain now now') orm)

  -- The page and the limit of a listing, and the query's last calls.
  unfoldable pub paged :
      PaginationOptions
      → SelectQuery ExecutionOrm
      → Action repo.Table (PaginatedResult WorkflowExecution)
  unfolding execution_to_domain build_pagination_meta
  paged options query =
      let page = get_or options.page 1 in
      let limit = min (get_or options.limit 20) 100 in
      do
        (orms, total) ← reading (
            repo.get_many_and_count (record query {
              order_desc = some "createdAt";
              skip = (page - 1) * limit;
              take = some limit;
            }))
        pure (record {
          items = map (execution_to_domain now now') orms;
          meta = build_pagination_meta page limit total;
        })

  unfoldable pub find_by_definition :
      Text → PaginationOptions → Action repo.Table (PaginatedResult WorkflowExecution)
  unfolding paged and_where
  find_by_definition definition_id options = do
    query ← lift (scoped_qb store execution_column)
    paged options (and_where (λ e. e.definition_id === definition_id) query)

  -- `findMany`; the filter is the status, where it is given.
  unfoldable pub find_many :
      Option WorkflowExecutionStatus
      → PaginationOptions
      → Action repo.Table (PaginatedResult WorkflowExecution)
  unfolding paged and_where execution_status_value
  find_many status options = do
    query ← lift (scoped_qb store execution_column)
    paged options (elim status [
      | none ↦ query
      | some s ↦ and_where (λ e. execution_status_value e.status === execution_status_value s) query
    ])

  unfoldable pub save_execution : WorkflowExecution → Action repo.Table WorkflowExecution
  unfolding execution_to_domain execution_to_orm
  save_execution execution = do
    lift (guard_tenant_ownership store execution.tenant_id)
    saved ← repo.save (execution_to_orm execution)
    pure (execution_to_domain now now' saved)

module _ (repo : Repository definition_column) (store : Option TenantContext) where
  unfoldable pub find_definition : ℕ → ℕ → Text → Action repo.Table (Option WorkflowDefinition)
  unfolding definition_to_domain
  find_definition now now' id = do
    conditions ← lift (scoped_where store (("id", id) ∷ []))
    orm ← reading (repo.find_one conditions)
    pure (map_option (definition_to_domain now now') orm)

  unfoldable pub save_definition : ℕ → ℕ → WorkflowDefinition → Action repo.Table WorkflowDefinition
  unfolding definition_to_domain definition_to_orm
  save_definition now now' definition = do
    lift (guard_tenant_ownership store definition.tenant_id)
    saved ← repo.save (definition_to_orm definition)
    pure (definition_to_domain now now' saved)

  unfoldable pub definition_exists : Text → Action repo.Table Bool
  unfolding and_where
  definition_exists id = do
    query ← lift (scoped_qb store definition_column)
    count ← reading (repo.get_count (and_where (λ d. d.id === id) query))
    pure (ltb 0 count)
