-- ===== src/Dashboard/Series.antt =====
-- dashboard/application/queries/get-event-series. The handler only reads; the text of a row's count is
-- the number that it stands for, and an instant lies at least six days after the first of 1970.
pub mod Rows
pub mod Memory
pub mod Points
pub mod Rejection
use text.Mathlib.Text.{◌==◌ as str_eq}
use multi_tenant_saa_s_platf.Base.{
  ℕ, zero, suc, ◌+◌, ◌-◌, ◌*◌, ◌≡◌, Bool, false, Option, none, some, List, [], ◌∷◌, Text, String,
  codes, Result, ok, fail, Exception, ◌>>=◌, ◌===◌, if◌then◌else◌, get_or, leb, All, any, keep,
  length,
}
use multi_tenant_saa_s_platf.Kernel.Context.{TenantContext}
use multi_tenant_saa_s_platf.Kernel.Repository.{Repository, SelectQuery, fits, and_where}
use multi_tenant_saa_s_platf.Audit.Event.{AuditEventOrm, audit_column}
use multi_tenant_saa_s_platf.Workflow.Repositories.{ExecutionOrm, execution_column}
use multi_tenant_saa_s_platf.Dashboard.Calendar.{UtcCalendar, day_ms, format_day, start_of_utc_day}
use multi_tenant_saa_s_platf.Dashboard.Metrics.{
  context_tenant_id, events_of, executions_of, has_status, since,
}

-- `DailyCountRow`, with its day and count
abbrev pub DailyCountRow : Type 0
DailyCountRow = Text × ℕ

abbrev pub rows_on : {E : Type 0} → (E → Text) → Text → SelectQuery E → List E → ℕ
rows_on day_of day q es = length (keep (λ e. day_of e === day) (keep (fits q.filters) es))

-- Rows that have the counts of some entities by their day: each has its day's count, and a day without a
-- row has none.
abbrev pub CountsDays :
    {E : Type 0} → (E → Text) → SelectQuery E → List E → List DailyCountRow → Type 0
CountsDays day_of q es rows =
    All (λ r. r.1 ≡ rows_on day_of r.0 q es) rows
    × ((day : Text) → any (λ r. r.0 === day) rows ≡ false → rows_on day_of day q es ≡ 0)

-- The columns of instants that the two tables have, by the names that the entities' decorators give them.
unfoldable pub audit_instant : String → Option (AuditEventOrm → Option ℕ)
audit_instant name = if str_eq name "occurred_at" then some (λ e. some e.occurred_at) else none

unfoldable pub execution_instant : String → Option (ExecutionOrm → Option ℕ)
execution_instant name =
    if str_eq name "created_at"
    then some (λ e. e.created_at)
    else if str_eq name "startedAt"
    then some (λ e. e.started_at)
    else if str_eq name "completedAt"
    then some (λ e. e.completed_at)
    else none

-- `select(to_char(x."name" ...), 'day').addSelect('COUNT(*)', 'count')`, grouped by the day, of a query's
-- rows: the quoted name is that of a column as the database knows it, and a statement that names a
-- column that the table does not have is rejected. The function writes an instant's day.
pub record DailyCounts {E : Type 0} {column : String → E → Text}
    (instant : String → Option (E → Option ℕ)) (repo : Repository column) : Type 0 where
  pub count_by_day :
      String → SelectQuery E → (Option ℕ → Text) → repo.Table → Result (List DailyCountRow)
  pub counted :
      (name : String) (f : E → Option ℕ) (q : SelectQuery E) (day : Option ℕ → Text)
      (t : repo.Table) (rows : List DailyCountRow)
      → instant name ≡ some f
      → count_by_day name q day t ≡ ok rows
      → CountsDays (λ e. day (f e)) q (repo.rows t) rows
  pub unknown_column :
      (name : String) (q : SelectQuery E) (day : Option ℕ → Text) (t : repo.Table)
      → instant name ≡ none
      → (x : Exception) × (count_by_day name q day t ≡ fail x)

pub record EventSeriesPoint : Type 0 where
  pub time : Text
  pub events : ℕ
  pub failures : ℕ

-- `SERIES_DAYS`
abbrev pub series_days : ℕ
series_days = 7

-- A `Map` from days to counts: what was set last stands first.
abbrev pub DayMap : Type 0
DayMap = List (Text × ℕ)

unfoldable pub get : Text → DayMap → Option ℕ
get day [] = none
get day (entry ∷ m) = let rest = get day m in if entry.0 === day then some entry.1 else rest

-- The loop of `indexByDay`
unfoldable pub index_rows : List DailyCountRow → DayMap → DayMap
index_rows [] m = m
index_rows (row ∷ rows) m = index_rows rows ((row.0, row.1) ∷ m)

unfoldable pub index_by_day : List DailyCountRow → DayMap
unfolding index_rows
index_by_day rows = index_rows rows []

-- The instant's text, or none where the column is null
abbrev pub day_text : UtcCalendar → Option ℕ → Text
day_text calendar none = []
day_text calendar (some t) = format_day calendar t

abbrev pub window_events : ℕ → Text → SelectQuery AuditEventOrm
window_events from tenant_id = and_where (λ x. leb from x.occurred_at) (events_of tenant_id)

abbrev pub window_failures : ℕ → Text → SelectQuery ExecutionOrm
window_failures from tenant_id =
    and_where (λ x. since from x.created_at)
      (and_where (has_status (codes "failed")) (executions_of tenant_id))

module _ (calendar : UtcCalendar) where
  -- The loop over the days, from the `i`-th, with the number of those that are left.
  unfoldable pub series_points : ℕ → DayMap → DayMap → ℕ → ℕ → List EventSeriesPoint
  unfolding get format_day
  series_points window_start events_by_day failures_by_day i zero = []
  series_points window_start events_by_day failures_by_day i (suc left) =
      let key = format_day calendar (window_start + i * day_ms) in
      record {
        time = key;
        events = get_or (get key events_by_day) 0;
        failures = get_or (get key failures_by_day) 0;
      }
      ∷ series_points window_start events_by_day failures_by_day (suc i) left

  module _ {audits : Repository audit_column} {executions : Repository execution_column}
      (audit_days : DailyCounts audit_instant audits)
      (execution_days : DailyCounts execution_instant executions)
      (store : Option TenantContext) where
    -- `GetEventSeriesHandler.execute`; the last argument but the tables is the clock. The columns are
    -- named as in the code's fragments of SQL.
    unfoldable pub execute_series :
        ℕ → audits.Table → executions.Table → Result (List EventSeriesPoint)
    unfolding context_tenant_id events_of executions_of and_where codes index_by_day series_points
        format_day start_of_utc_day
    execute_series now a e = do
      tenant_id ← context_tenant_id store
      let today_start = start_of_utc_day calendar now
      let window_start = today_start - (series_days - 1) * day_ms
      event_rows ←
          audit_days.count_by_day "occurredAt" (window_events window_start tenant_id)
            (day_text calendar) a
      failure_rows ←
          execution_days.count_by_day "created_at" (window_failures window_start tenant_id)
            (day_text calendar) e
      ok (
          series_points window_start (index_by_day event_rows) (index_by_day failure_rows) 0
            series_days)
