-- ===== src/Dashboard/Metrics.antt =====
-- dashboard/application/queries/get-metrics. The handler only reads; the counts that it asks for at once
-- are asked for in their order. Instants are later than the second of January 1970.
pub mod Counts
use multi_tenant_saa_s_platf.Base.{
  ℕ, ◌-◌, ◌*◌, Bool, true, false, ◌&&◌, ◌||◌, not, Option, none, some, [], ◌∷◌, Text, codes, ℤ,
  Result, ok, ◌>>=◌, ◌===◌, leb, ltb,
}
use multi_tenant_saa_s_platf.Kernel.Context.{TenantContext, get_context}
use multi_tenant_saa_s_platf.Kernel.Repository.{
  Repository, SelectQuery, where_only, and_where, create_query_builder,
}
use multi_tenant_saa_s_platf.TenantCore.Repository.{organization_column}
use multi_tenant_saa_s_platf.Audit.Event.{AuditEventOrm, audit_column}
use multi_tenant_saa_s_platf.Workflow.Execution.{execution_status_value}
use multi_tenant_saa_s_platf.Workflow.Repositories.{ExecutionOrm, execution_column}
use multi_tenant_saa_s_platf.Dashboard.Percentage.{percent_change}
use multi_tenant_saa_s_platf.Dashboard.Calendar.{day_ms}

-- The trends are in tenths of a percent.
pub record DashboardMetricsResult : Type 0 where
  pub total_events : ℕ
  pub active_workflows : ℕ
  pub failed_executions : ℕ
  pub tenant_count : ℕ
  pub events_trend : ℤ
  pub failed_trend : ℤ

-- `x >= :from` and `x < :to`, on a column that may be null
abbrev pub since : ℕ → Option ℕ → Bool
since from none = false
since from (some t) = leb from t

abbrev pub before : ℕ → Option ℕ → Bool
before to none = false
before to (some t) = ltb t to

-- `TenantContextService.tenantId`
unfoldable pub context_tenant_id : Option TenantContext → Result Text
unfolding get_context
context_tenant_id store = do ctx ← get_context store; ok ctx.tenant_id

-- `createQueryBuilder('we').where('we.tenantId = :tenantId')`, and the same of events
unfoldable pub executions_of : Text → SelectQuery ExecutionOrm
unfolding where_only create_query_builder
executions_of tenant_id = where_only (λ e. e.tenant_id === tenant_id) create_query_builder

unfoldable pub events_of : Text → SelectQuery AuditEventOrm
unfolding where_only create_query_builder
events_of tenant_id = where_only (λ e. e.tenant_id === tenant_id) create_query_builder

abbrev pub has_status : Text → ExecutionOrm → Bool
has_status value e = execution_status_value e.status === value

-- The five queries that the handler builds.
abbrev pub active_query : Text → SelectQuery ExecutionOrm
active_query tenant_id =
    and_where (λ x. has_status (codes "running") x || has_status (codes "pending") x)
      (executions_of tenant_id)

abbrev pub failed_query : ℕ → Text → SelectQuery ExecutionOrm
failed_query last_start tenant_id =
    and_where (λ x. since last_start x.created_at)
      (and_where (has_status (codes "failed")) (executions_of tenant_id))

abbrev pub failed_before_query : ℕ → ℕ → Text → SelectQuery ExecutionOrm
failed_before_query previous_start last_start tenant_id =
    and_where (λ x. before last_start x.created_at) (failed_query previous_start tenant_id)

abbrev pub events_query : ℕ → Text → SelectQuery AuditEventOrm
events_query last_start tenant_id =
    and_where (λ x. leb last_start x.occurred_at) (events_of tenant_id)

abbrev pub events_before_query : ℕ → ℕ → Text → SelectQuery AuditEventOrm
events_before_query previous_start last_start tenant_id =
    and_where (λ x. ltb x.occurred_at last_start) (events_query previous_start tenant_id)

module _ (audits : Repository audit_column) (executions : Repository execution_column)
    (organizations : Repository organization_column) (store : Option TenantContext) where
  -- `GetDashboardMetricsHandler.execute`; the last argument but the tables is the clock.
  unfoldable pub execute_metrics :
      ℕ → audits.Table → executions.Table → organizations.Table → Result DashboardMetricsResult
  unfolding context_tenant_id executions_of events_of and_where codes percent_change
      execution_status_value
  execute_metrics now a e o =
      let last_start = now - day_ms in
      let previous_start = now - 2 * day_ms in
      do
        tenant_id ← context_tenant_id store
        total_events ← audits.count (("tenantId", tenant_id) ∷ []) a
        active_workflows ← executions.get_count (active_query tenant_id) e
        failed_last ← executions.get_count (failed_query last_start tenant_id) e
        failed_previous ←
            executions.get_count (failed_before_query previous_start last_start tenant_id) e
        tenant_count ← organizations.count [] o
        events_last ← audits.get_count (events_query last_start tenant_id) a
        events_previous ←
            audits.get_count (events_before_query previous_start last_start tenant_id) a
        ok (record {
          total_events = total_events;
          active_workflows = active_workflows;
          failed_executions = failed_last;
          tenant_count = tenant_count;
          events_trend = percent_change events_last events_previous;
          failed_trend = percent_change failed_last failed_previous;
        })
