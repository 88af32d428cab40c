-- ===== src/Api/Executions.antt =====
-- workflow/api/workflow.controller.ts. The two readings of the clock are those of the repository.
use multi_tenant_saa_s_platf.Base.{ℕ, Option, some, [], ◌∷◌, Text, get_or}
use multi_tenant_saa_s_platf.Base.Actions.{Action, lift, ◌>>=◌}
use multi_tenant_saa_s_platf.Kernel.Tenancy.{member, admin}
use multi_tenant_saa_s_platf.Kernel.Pagination.{PaginatedResult}
use multi_tenant_saa_s_platf.Kernel.Repository.{Repository}
use multi_tenant_saa_s_platf.Workflow.Execution.{WorkflowExecutionStatus}
use multi_tenant_saa_s_platf.Workflow.Repositories.{execution_column}
use multi_tenant_saa_s_platf.Workflow.Commands.{
  WorkflowExecutionDto, Supply, execute_get, execute_list, execute_cancel,
}
use multi_tenant_saa_s_platf.Api.Calls.{Call, context_of, enter, tenant_param}

pub record ListExecutionsQueryParams : Type 0 where
  pub status : Option WorkflowExecutionStatus
  pub page : Option ℕ
  pub limit : Option ℕ

module _ (executions : Repository execution_column) where
  unfoldable pub list_executions :
      Call
      → ListExecutionsQueryParams
      → ℕ
      → ℕ
      → Action executions.Table (PaginatedResult WorkflowExecutionDto)
  unfolding enter tenant_param context_of execute_list
  list_executions call params now now' = do
    user ← lift (enter (some (member ∷ [])) call.user)
    tenant_id ← lift (tenant_param call)
    execute_list executions (context_of call)
        (record {
          status = params.status;
          page = get_or params.page 1;
          limit = get_or params.limit 20;
        })
        now now'

  unfoldable pub get_execution : Call → Text → ℕ → ℕ → Action executions.Table WorkflowExecutionDto
  unfolding enter tenant_param context_of execute_get
  get_execution call id now now' = do
    user ← lift (enter (some (member ∷ [])) call.user)
    tenant_id ← lift (tenant_param call)
    execute_get executions (context_of call) now now' id

  unfoldable pub cancel_execution :
      Call → Text → Option Text → Supply → Action executions.Table WorkflowExecutionDto
  unfolding enter tenant_param context_of execute_cancel
  cancel_execution call id reason supply = do
    user ← lift (enter (some (admin ∷ [])) call.user)
    tenant_id ← lift (tenant_param call)
    execute_cancel executions (context_of call) (record { execution_id = id; reason = reason })
        supply
