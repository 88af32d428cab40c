-- ===== src/Api/Readings.antt =====
-- audit/api/audit.controller.ts and dashboard/api/dashboard.controller.ts
use multi_tenant_saa_s_platf.Base.{
  ℕ, Option, none, some, List, [], ◌∷◌, Text, Result, ◌>>=◌ as bind,
}
use multi_tenant_saa_s_platf.Base.Actions.{Action, lift, ◌>>=◌}
use multi_tenant_saa_s_platf.Kernel.Tenancy.{viewer, admin}
use multi_tenant_saa_s_platf.Kernel.Pagination.{PaginatedResult}
use multi_tenant_saa_s_platf.Kernel.Repository.{Repository}
use multi_tenant_saa_s_platf.TenantCore.Repository.{organization_column}
use multi_tenant_saa_s_platf.Workflow.Repositories.{execution_column}
use multi_tenant_saa_s_platf.Audit.Event.{AuditEvent, audit_column}
use multi_tenant_saa_s_platf.Audit.Repository.{query, find_by_id}
use multi_tenant_saa_s_platf.Dashboard.Calendar.{UtcCalendar}
use multi_tenant_saa_s_platf.Dashboard.Metrics.{
  DashboardMetricsResult, context_tenant_id, execute_metrics,
}
use multi_tenant_saa_s_platf.Dashboard.Series.{
  audit_instant, execution_instant, DailyCounts, EventSeriesPoint, execute_series,
}
use multi_tenant_saa_s_platf.Api.Calls.{Call, context_of, enter}

pub record AuditQueryParams : Type 0 where
  pub actor_id : Option Text
  pub action : Option Text
  pub resource_type : Option Text
  pub resource_id : Option Text
  pub page : Option ℕ
  pub limit : Option ℕ

module _ (audits : Repository audit_column) where
  unfoldable pub get_audit_events :
      Call → AuditQueryParams → ℕ → ℕ → Action audits.Table (PaginatedResult AuditEvent)
  unfolding enter context_of query
  get_audit_events call params now now' = do
    user ← lift (enter (some (admin ∷ [])) call.user)
    query audits (context_of call) now now'
        (record {
          actor_id = params.actor_id;
          action = params.action;
          resource_type = params.resource_type;
          resource_id = params.resource_id;
          outcome = none;
          from_date = none;
          to_date = none;
        })
        (record { page = params.page; limit = params.limit })

  unfoldable pub get_audit_event : Call → Text → ℕ → ℕ → Action audits.Table (Option AuditEvent)
  unfolding enter context_of find_by_id
  get_audit_event call id now now' = do
    user ← lift (enter (some (admin ∷ [])) call.user)
    find_by_id audits (context_of call) now now' id

module _ (audits : Repository audit_column) (executions : Repository execution_column)
    (organizations : Repository organization_column) where
  -- `metrics`, which reads the tenant for its query before the handler reads it again
  unfoldable pub metrics :
      Call
      → ℕ
      → audits.Table
      → executions.Table
      → organizations.Table
      → Result DashboardMetricsResult
  unfolding enter context_of context_tenant_id execute_metrics
  metrics call now a e o = bind (enter (some (viewer ∷ [])) call.user) λ user.
      bind (context_tenant_id (context_of call))
        λ tenant_id. execute_metrics audits executions organizations (context_of call) now a e o

module _ (calendar : UtcCalendar) {audits : Repository audit_column}
    {executions : Repository execution_column} (audit_days : DailyCounts audit_instant audits)
    (execution_days : DailyCounts execution_instant executions) where
  unfoldable pub event_series :
      Call → ℕ → audits.Table → executions.Table → Result (List EventSeriesPoint)
  unfolding enter context_of context_tenant_id execute_series
  event_series call now a e = bind (enter (some (viewer ∷ [])) call.user) λ user.
      bind (context_tenant_id (context_of call))
        λ tenant_id. execute_series calendar audit_days execution_days (context_of call) now a e
