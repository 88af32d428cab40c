-- ===== src/Dashboard/Series/Points.antt =====
-- The points of dashboard/application/queries/get-event-series, day by day.
use mathlib.Core.Path.{subst}
use multi_tenant_saa_s_platf.Base.{
  ℕ, zero, suc, ◌+◌, ◌-◌, ◌*◌, ◌/◌, ◌≡◌, ◌≤◌, ◌↔◌, refl, Bool, true, false, Option, none, some,
  List, [], ◌∷◌, Text, codes, ok, arith, ◌===◌, ◌==◌, get_or, text_eq_iff, keep, length, ap, sym,
  ◌∙◌, Result,
}
use multi_tenant_saa_s_platf.Kernel.Repository.{and_where}
use multi_tenant_saa_s_platf.Audit.Event.{AuditEventOrm}
use multi_tenant_saa_s_platf.Workflow.Repositories.{ExecutionOrm}
use multi_tenant_saa_s_platf.Dashboard.Calendar.{UtcCalendar, day_ms, format_day, start_of_utc_day}
use multi_tenant_saa_s_platf.Dashboard.Calendar.Days.{format_day_iff, start_of_utc_day_lem}
use multi_tenant_saa_s_platf.Dashboard.Metrics.{events_of, executions_of, has_status, since}
use multi_tenant_saa_s_platf.Dashboard.Metrics.Counts.{two_fit, three_fit}
use multi_tenant_saa_s_platf.Dashboard.Series.{
  DailyCountRow, CountsDays, EventSeriesPoint, rows_on, get, index_by_day, day_text, window_events,
  window_failures, series_points, series_days,
}
use multi_tenant_saa_s_platf.Dashboard.Series.Rows.{get-index_by_day}

-- A day is its number, counted from the first of 1970.
abbrev pub on_day : ℕ → Option ℕ → Bool
on_day d none = false
on_day d (some t) = t / day_ms == d

-- The series of a tenant's own events and failures, of a number of days from a first.
unfoldable pub own_series :
    UtcCalendar → List AuditEventOrm → List ExecutionOrm → ℕ → ℕ → List EventSeriesPoint
unfolding format_day
own_series calendar events failures d zero = []
own_series calendar events failures d (suc left) =
    record {
      time = format_day calendar (d * day_ms);
      events = length (keep (λ e. on_day d (some e.occurred_at)) events);
      failures = length (keep (λ e. on_day d e.created_at) failures);
    }
    ∷ own_series calendar events failures (suc d) left

ok_path : {A : Type 0} {a b : A} → ◌≡◌ {A = Result A} (ok a) (ok b) → a ≡ b
ok_path h = cc

keep_both :
    {E : Type 0} (p q r : E → Bool) (es : List E)
    → ((e : E) → (r e ≡ true) ↔ ((q e ≡ true) × (p e ≡ true)))
    → keep p (keep q es) ≡ keep r es
keep_both p q r [] h = refl
keep_both p q r (e ∷ es) h = ground (arith, h e, keep_both p q r es h)

module _ (calendar : UtcCalendar) where
  -- A row of the window has a day's text exactly when it is of that day.
  day_agree :
      (first d : ℕ) (t : Option ℕ)
      → first ≤ d
      → (on_day d t ≡ true) ↔ (
          (since (first * day_ms) t ≡ true)
          × ((day_text calendar t === format_day calendar (d * day_ms)) ≡ true))
  day_agree first d none le = (λ h. ground arith, λ h. ground arith)
  day_agree first d (some t) le =
      let same_text = format_day_iff calendar t (d * day_ms) in
      let equal = text_eq_iff (format_day calendar t) (format_day calendar (d * day_ms)) in
      let exact : (d * day_ms) / day_ms ≡ d = omega arith in
      (
        λ h.
            let on : t / day_ms ≡ d = ground arith in
            (ground arith, equal.1 (same_text.1 (on ∙ sym exact))),
        λ h. let on = same_text.0 (equal.0 h.1) ∙ exact in ground arith,
      )

  module _ (tenant : Text) (first : ℕ) where
    abbrev own_events : List AuditEventOrm → List AuditEventOrm
    own_events rows = keep (λ e. e.tenant_id === tenant) rows

    abbrev own_failures : List ExecutionOrm → List ExecutionOrm
    own_failures rows = keep (has_status (codes "failed")) (keep (λ e. e.tenant_id === tenant) rows)

    events_on :
        (d : ℕ) (rows : List AuditEventOrm)
        → first ≤ d
        → rows_on
            (λ x. format_day calendar x.occurred_at)
            (format_day calendar (d * day_ms))
            (window_events (first * day_ms) tenant)
            rows
          ≡ length (keep (λ e. on_day d (some e.occurred_at)) (own_events rows))
    unfolding and_where events_of
    events_on d rows le =
        ap
          (λ es.
            length (
              keep (λ e. format_day calendar e.occurred_at === format_day calendar (d * day_ms))
                es))
          (two_fit _ _ rows)
        ∙ ap length
            (keep_both _ _ _ (own_events rows) (λ e. day_agree first d (some e.occurred_at) le))

    failures_on :
        (d : ℕ) (rows : List ExecutionOrm)
        → first ≤ d
        → rows_on
            (λ x. day_text calendar x.created_at)
            (format_day calendar (d * day_ms))
            (window_failures (first * day_ms) tenant)
            rows
          ≡ length (keep (λ e. on_day d e.created_at) (own_failures rows))
    unfolding and_where executions_of
    failures_on d rows le =
        ap
          (λ es.
            length
              (keep (λ e. day_text calendar e.created_at === format_day calendar (d * day_ms)) es))
          (three_fit _ _ _ rows)
        ∙ ap length (keep_both _ _ _ (own_failures rows) (λ e. day_agree first d e.created_at le))

    module _ (events : List AuditEventOrm) (executions : List ExecutionOrm)
        (event_rows failure_rows : List DailyCountRow)
        (counted : CountsDays
          (λ x. day_text calendar (some x.occurred_at))
          (window_events (first * day_ms) tenant)
          events
          event_rows)
        (counted_failures : CountsDays
          (λ x. day_text calendar x.created_at)
          (window_failures (first * day_ms) tenant)
          executions
          failure_rows) where
      points_own :
          (i left : ℕ)
          → series_points calendar
              (first * day_ms)
              (index_by_day event_rows)
              (index_by_day failure_rows)
              i
              left
            ≡ own_series calendar (own_events events) (own_failures executions) (first + i) left
      unfolding series_points own_series
      points_own i zero = refl
      points_own i (suc left) =
          let key : first * day_ms + i * day_ms ≡ (first + i) * day_ms = omega arith in
          let next : first + suc i ≡ suc (first + i) = omega arith in
          let rest = points_own (suc i) left in
          let text = ap (format_day calendar) key in
          let day = format_day calendar ((first + i) * day_ms) in
          let event_count =
            get-index_by_day (λ x. day_text calendar (some x.occurred_at))
              (window_events (first * day_ms) tenant) events event_rows day counted
            ∙ events_on (first + i) events (omega arith) in
          let failure_count =
            get-index_by_day (λ x. day_text calendar x.created_at)
              (window_failures (first * day_ms) tenant) executions failure_rows day counted_failures
            ∙ failures_on (first + i) executions (omega arith) in
          let series = own_series calendar (own_events events) (own_failures executions) in
          let point : Text → EventSeriesPoint = λ k. record {
            time = k;
            events = get_or (get k (index_by_day event_rows)) 0;
            failures = get_or (get k (index_by_day failure_rows)) 0;
          } in
          let tail = rest ∙ ap (λ d. series d left) next in
          (λ j. point (text j) ∷ tail j) ∙ (λ j.
            record { time = day; events = event_count j; failures = failure_count j }
            ∷ series (suc (first + i)) left)

-- Out of rows that have the counts by day of the window's events and of its failed executions, the loop
-- makes seven points, one for each of the last seven days and the oldest first; each counts the
-- tenant's events, and its failed executions, of that day, and is zero where there are none.
pub series_points-own_series :
    (calendar : UtcCalendar) (tenant : Text) (now : ℕ) (events : List AuditEventOrm)
    (executions : List ExecutionOrm) (event_rows failure_rows : List DailyCountRow)
    → CountsDays
        (λ x. day_text calendar (some x.occurred_at))
        (window_events (start_of_utc_day calendar now - 6 * day_ms) tenant)
        events
        event_rows
    → CountsDays
        (λ x. day_text calendar x.created_at)
        (window_failures (start_of_utc_day calendar now - 6 * day_ms) tenant)
        executions
        failure_rows
    → series_points calendar
        (start_of_utc_day calendar now - 6 * day_ms)
        (index_by_day event_rows)
        (index_by_day failure_rows)
        0
        series_days
      ≡ own_series calendar
          (keep (λ x. x.tenant_id === tenant) events)
          (keep (has_status (codes "failed")) (keep (λ x. x.tenant_id === tenant) executions))
          (now / day_ms - 6)
          7
series_points-own_series calendar tenant now events executions event_rows failure_rows =
    let first = now / day_ms - 6 in
    let start : first * day_ms ≡ start_of_utc_day calendar now - 6 * day_ms =
      sym (ap (λ t. t - 6 * day_ms) (start_of_utc_day_lem calendar now) ∙ omega arith) in
    let zero_right : first + 0 ≡ first = omega arith in
    subst
      (λ s.
        CountsDays (λ x. day_text calendar (some x.occurred_at)) (window_events s tenant) events
          event_rows
        → CountsDays (λ x. day_text calendar x.created_at) (window_failures s tenant) executions
            failure_rows
        → series_points calendar s (index_by_day event_rows) (index_by_day failure_rows) 0 7
          ≡ own_series calendar (keep (λ x. x.tenant_id === tenant) events)
              (keep (has_status (codes "failed")) (keep (λ x. x.tenant_id === tenant) executions))
              first 7)
      start
      (λ counted counted_failures.
        points_own calendar tenant first events executions event_rows failure_rows counted
          counted_failures 0 7
        ∙ ap
            (λ d.
              own_series calendar (own_events calendar tenant first events)
                (own_failures calendar tenant first executions) d 7)
            zero_right)
