-- ===== src/Dashboard/Series/Rejection.antt =====
-- How a request for the series ends: get-event-series.handler.ts against the columns of the two tables.
use multi_tenant_saa_s_platf.Base.{
  ℕ, ◌-◌, ◌*◌, ◌≡◌, refl, inl, inr, Option, fail, Exception, arith, Result-cases,
}
use multi_tenant_saa_s_platf.Kernel.Context.{TenantContext}
use multi_tenant_saa_s_platf.Kernel.Repository.{Repository}
use multi_tenant_saa_s_platf.Audit.Event.{audit_column}
use multi_tenant_saa_s_platf.Workflow.Repositories.{execution_column}
use multi_tenant_saa_s_platf.Dashboard.Calendar.{UtcCalendar, day_ms, start_of_utc_day}
use multi_tenant_saa_s_platf.Dashboard.Metrics.{context_tenant_id}
use multi_tenant_saa_s_platf.Dashboard.Series.{
  DailyCounts, audit_instant, execution_instant, day_text, window_events, execute_series,
}

-- Every request for the series throws, whatever the tables hold: the statement for the events names a
-- column that their table does not have.
pub execute_series-rejected :
    (calendar : UtcCalendar) {audits : Repository audit_column}
    {executions : Repository execution_column} (audit_days : DailyCounts audit_instant audits)
    (execution_days : DailyCounts execution_instant executions) (store : Option TenantContext)
    (now : ℕ) (a : audits.Table) (e : executions.Table)
    → (x : Exception) × (execute_series calendar audit_days execution_days store now a e ≡ fail x)
unfolding execute_series context_tenant_id audit_instant
execute_series-rejected calendar audit_days execution_days store now a e =
    elim (Result-cases (context_tenant_id store)) [
      | inl (tenant, c) ↦
          let window = window_events (start_of_utc_day calendar now - 6 * day_ms) tenant in
          let (x, rejected) =
            audit_days.unknown_column "occurredAt" window (day_text calendar) a refl in
          (x, ground arith)
      | inr (x, c) ↦ (x, ground arith)
    ]
