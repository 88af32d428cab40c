-- ===== src/Tests/Dashboard.antt =====
-- The theorems on the dashboard at concrete inputs.
use multi_tenant_saa_s_platf.Base.{
  ℕ, ◌+◌, ◌/◌, ◌*◌, ◌-◌, ◌≡◌, refl, fail, Exception, none, some, List, [], ◌∷◌, Text, codes, keep,
  ◌===◌, pos, negsuc,
}
use multi_tenant_saa_s_platf.Kernel.Context.{get_context}
use multi_tenant_saa_s_platf.Kernel.Json.{end}
use multi_tenant_saa_s_platf.Kernel.Repository.{
  where_only, and_where, create_query_builder, fits, matches,
}
use multi_tenant_saa_s_platf.Kernel.Repository.Memory.{memory, holding}
use multi_tenant_saa_s_platf.TenantCore.Repository.{organization_column}
use multi_tenant_saa_s_platf.Audit.Event.{AuditEventOrm, user, success, audit_column}
use multi_tenant_saa_s_platf.Workflow.Execution.{failed, execution_status_value}
use multi_tenant_saa_s_platf.Workflow.Repositories.{ExecutionOrm, execution_column}
use multi_tenant_saa_s_platf.Base.Doubles.{to_double, grown, shrunk, half_even, times}
use multi_tenant_saa_s_platf.Dashboard.Percentage.{percent_change, rounded_up, rounded_down}
use multi_tenant_saa_s_platf.Dashboard.Calendar.{UtcCalendar, day_ms, format_day, start_of_utc_day}
use multi_tenant_saa_s_platf.Dashboard.Metrics.{
  DashboardMetricsResult, context_tenant_id, events_of, executions_of, execute_metrics, has_status,
}
use multi_tenant_saa_s_platf.Dashboard.Metrics.Counts.{own_metrics, execute_metrics-own_metrics}
use multi_tenant_saa_s_platf.Dashboard.Series.{
  EventSeriesPoint, execute_series, index_by_day, series_points, audit_instant, execution_instant,
  day_text,
}
use multi_tenant_saa_s_platf.Dashboard.Series.Memory.{
  memory_days, day_rows, day_rows-listed, day_rows-unlisted,
}
use multi_tenant_saa_s_platf.Dashboard.Series.Points.{own_series, series_points-own_series}
use multi_tenant_saa_s_platf.Dashboard.Series.Rejection.{execute_series-rejected}
use multi_tenant_saa_s_platf.Tests.Fixtures.{acme, zoo, ann, ctx_of, row_of, execution_row}

-- From 3 to 1: two thirds less
two_thirds_less : percent_change 1 3 ≡ negsuc 666
unfolding percent_change to_double grown shrunk half_even times rounded_down
two_thirds_less = refl

-- From 80 to 31: the exact value -61.25 is rounded to -61.2, and the doubles on the way lead to -61.3.
below_the_half : percent_change 31 80 ≡ negsuc 612
unfolding percent_change to_double grown shrunk half_even times rounded_down
below_the_half = refl

-- An event of a tenant at an instant
abbrev event_at : Text → ℕ → AuditEventOrm
event_at tenant t = record {
  id = zoo;
  tenant_id = tenant;
  actor_id = none;
  actor_type = user;
  action = ann;
  resource_type = ann;
  resource_id = zoo;
  outcome = success;
  metadata = end;
  correlation_id = [];
  ip_address = none;
  user_agent = none;
  occurred_at = t;
}

-- The ninth day, at noon
abbrev now : ℕ
now = 9 * day_ms + 43200000

abbrev events : List AuditEventOrm
events = event_at acme (9 * day_ms) ∷ event_at zoo (9 * day_ms) ∷ event_at acme 5 ∷ []

abbrev failures : List ExecutionOrm
failures = record (execution_row acme zoo) { status = failed; created_at = some (9 * day_ms) } ∷ []

abbrev metrics : DashboardMetricsResult
metrics = record {
  total_events = 2;
  active_workflows = 0;
  failed_executions = 1;
  tenant_count = 1;
  events_trend = pos 1000;
  failed_trend = pos 1000;
}

execute_metrics-own_metrics_example :
    metrics
    ≡ own_metrics now
        (keep (λ x. x.tenant_id === acme) events)
        (keep (λ x. x.tenant_id === acme) failures)
        1
unfolding execute_metrics context_tenant_id get_context events_of executions_of where_only and_where
    create_query_builder memory holding matches fits audit_column ◌===◌ codes execution_status_value
    percent_change to_double grown shrunk half_even times rounded_up
execute_metrics-own_metrics_example =
    execute_metrics-own_metrics (memory audit_column) (memory execution_column)
      (memory organization_column) (ctx_of acme) now events failures (row_of zoo ∷ []) metrics refl

-- A calendar in which every year has one day
abbrev daily : UtcCalendar
daily = record {
  year = λ t. t / day_ms;
  month = λ t. 0;
  date = λ t. 1;
  utc = λ y m d. y * day_ms;
  utc_start = λ t. refl;
  same_year = λ t t' h. h;
  same_month = λ t t' h. refl;
  same_date = λ t t' h. refl;
}

abbrev point_of : ℕ → ℕ → ℕ → EventSeriesPoint
point_of d events failures = record {
  time = format_day daily (d * day_ms);
  events = events;
  failures = failures;
}

abbrev points : List EventSeriesPoint
points =
    point_of 3 0 0
    ∷ point_of 4 0 0
    ∷ point_of 5 0 0
    ∷ point_of 6 0 0
    ∷ point_of 7 0 0
    ∷ point_of 8 0 0
    ∷ point_of 9 1 1
    ∷ []

-- The events of the window that are acme's
abbrev own_window : List AuditEventOrm
own_window = event_at acme (9 * day_ms) ∷ []

series_points-own_series_example :
    series_points daily
      (start_of_utc_day daily now - 6 * day_ms)
      (index_by_day (day_rows (λ x. day_text daily (some x.occurred_at)) own_window own_window))
      (index_by_day (day_rows (λ x. day_text daily x.created_at) failures failures))
      0
      7
    ≡ own_series daily
        (keep (λ x. x.tenant_id === acme) events)
        (keep (has_status (codes "failed")) (keep (λ x. x.tenant_id === acme) failures))
        (now / day_ms - 6)
        7
unfolding audit_instant execution_instant events_of executions_of where_only and_where
    create_query_builder fits ◌===◌ codes execution_status_value start_of_utc_day
series_points-own_series_example =
    series_points-own_series daily acme now events failures
      (day_rows (λ x. day_text daily (some x.occurred_at)) own_window own_window)
      (day_rows (λ x. day_text daily x.created_at) failures failures)
      (
        day_rows-listed (λ x. day_text daily (some x.occurred_at)) own_window own_window,
        day_rows-unlisted (λ x. day_text daily (some x.occurred_at)) own_window own_window,
      )
      (
        day_rows-listed (λ x. day_text daily x.created_at) failures failures,
        day_rows-unlisted (λ x. day_text daily x.created_at) failures failures,
      )

-- The series of these rows
own_points : own_series daily own_window failures 3 7 ≡ points
unfolding own_series
own_points = refl

execute_series-rejected_example :
    (x : Exception) × (execute_series daily
        (memory_days audit_column audit_instant)
        (memory_days execution_column execution_instant)
        (some (ctx_of acme))
        now
        (holding audit_column events)
        (holding execution_column failures)
      ≡ fail x)
execute_series-rejected_example =
    execute_series-rejected daily (memory_days audit_column audit_instant)
      (memory_days execution_column execution_instant) (some (ctx_of acme)) now
      (holding audit_column events) (holding execution_column failures)
