-- ===== src/Dashboard/Metrics/Counts.antt =====
-- The rows that the counts of dashboard/application/queries/get-metrics read.
use multi_tenant_saa_s_platf.Base.{
  ℕ, ◌-◌, ◌*◌, ◌≡◌, refl, Bool, ◌||◌, some, List, [], ◌∷◌, Text, String, codes, ok, arith,
  fail_not_ok, Result, fail, ◌>>=◌, keep, length, ◌===◌, leb, ltb, ap, ◌∙◌,
}
use multi_tenant_saa_s_platf.Kernel.Context.{TenantContext, get_context}
use multi_tenant_saa_s_platf.Kernel.Repository.{Repository, fits, matches, and_where}
use multi_tenant_saa_s_platf.TenantCore.Repository.{organization_column}
use multi_tenant_saa_s_platf.Audit.Event.{AuditEventOrm, audit_column}
use multi_tenant_saa_s_platf.Workflow.Execution.{execution_status_value}
use multi_tenant_saa_s_platf.Workflow.Repositories.{ExecutionOrm, execution_column}
use multi_tenant_saa_s_platf.Dashboard.Percentage.{percent_change}
use multi_tenant_saa_s_platf.Dashboard.Calendar.{day_ms}
use multi_tenant_saa_s_platf.Dashboard.Metrics.{
  DashboardMetricsResult, since, before, has_status, execute_metrics, events_of, executions_of,
  context_tenant_id, active_query, failed_query, failed_before_query, events_query,
  events_before_query,
}

-- The metrics of a tenant out of its own events and executions, and the number of all organizations.
unfoldable pub own_metrics : ℕ → List AuditEventOrm → List ExecutionOrm → ℕ → DashboardMetricsResult
unfolding codes percent_change execution_status_value
own_metrics now events executions tenants =
    let last = now - day_ms in
    let previous = now - 2 * day_ms in
    let failures = keep (has_status (codes "failed")) executions in
    let recent = keep (λ x. since last x.created_at) failures in
    let earlier =
      keep (λ x. before last x.created_at) (keep (λ x. since previous x.created_at) failures) in
    record {
      total_events = length events;
      active_workflows =
          length (
            keep (λ x. has_status (codes "running") x || has_status (codes "pending") x)
              executions);
      failed_executions = length recent;
      tenant_count = tenants;
      events_trend = percent_change (length (keep (λ x. leb last x.occurred_at) events)) (
          length
            (keep (λ x. ltb x.occurred_at last) (keep (λ x. leb previous x.occurred_at) events)));
      failed_trend = percent_change (length recent) (length earlier);
    }

keep-fits :
    {E : Type 0} (f : E → Bool) (fs : List (E → Bool)) (es : List E)
    → keep (fits (f ∷ fs)) es ≡ keep (fits fs) (keep f es)
unfolding fits
keep-fits f fs [] = refl
keep-fits f fs (e ∷ es) = ground (arith, keep-fits f fs es)

keep_all : {E : Type 0} (es : List E) → keep (fits []) es ≡ es
unfolding fits
keep_all [] = refl
keep_all (e ∷ es) = ap (λ r. e ∷ r) (keep_all es)

module _ {E : Type 0} (own f : E → Bool) (es : List E) where
  pub two_fit : keep (fits (own ∷ f ∷ [])) es ≡ keep f (keep own es)
  two_fit = rw (keep-fits own (f ∷ []) es, keep-fits f [] (keep own es)) (keep_all _)

module _ {E : Type 0} (own f g : E → Bool) (es : List E) where
  pub three_fit : keep (fits (own ∷ f ∷ g ∷ [])) es ≡ keep g (keep f (keep own es))
  three_fit =
      rw
        (
          keep-fits own (f ∷ g ∷ []) es,
          keep-fits f (g ∷ []) (keep own es),
          keep-fits g [] (keep f (keep own es)),
        )
        (keep_all _)

module _ {E : Type 0} (own f g h : E → Bool) (es : List E) where
  four_fit : keep (fits (own ∷ f ∷ g ∷ h ∷ [])) es ≡ keep h (keep g (keep f (keep own es)))
  four_fit =
      rw
        (
          keep-fits own (f ∷ g ∷ h ∷ []) es,
          keep-fits f (g ∷ h ∷ []) (keep own es),
          keep-fits g (h ∷ []) (keep f (keep own es)),
          keep-fits h [] (keep g (keep f (keep own es))),
        )
        (keep_all _)

own_events :
    (t : Text) (es : List AuditEventOrm)
    → keep (matches audit_column (("tenantId", t) ∷ [])) es ≡ keep (λ e. e.tenant_id === t) es
unfolding matches audit_column
own_events t [] = refl
own_events t (e ∷ es) = ground (arith, own_events t es)

all_rows :
    {E : Type 0} (column : String → E → Text) (es : List E) → keep (matches column []) es ≡ es
unfolding matches
all_rows column [] = refl
all_rows column (e ∷ es) = ap (λ r. e ∷ r) (all_rows column es)

-- Seven counts that are asked for in a chain.
all_seven :
    {A : Type 0} (r1 r2 r3 r4 r5 r6 r7 : Result ℕ) (f : ℕ → ℕ → ℕ → ℕ → ℕ → ℕ → ℕ → A) (a : A)
    → (r1 >>= λ n1. r2 >>= λ n2. r3 >>= λ n3.
        r4 >>= λ n4. r5 >>= λ n5. r6 >>= λ n6. r7 >>= λ n7. ok (f n1 n2 n3 n4 n5 n6 n7))
      ≡ ok a
    → (n1 : ℕ) × (n2 : ℕ) × (n3 : ℕ) × (n4 : ℕ) × (n5 : ℕ) × (n6 : ℕ) × (n7 : ℕ) × (r1 ≡ ok n1)
      × (r2 ≡ ok n2)
      × (r3 ≡ ok n3)
      × (r4 ≡ ok n4)
      × (r5 ≡ ok n5)
      × (r6 ≡ ok n6)
      × (r7 ≡ ok n7)
      × (a ≡ f n1 n2 n3 n4 n5 n6 n7)
all_seven (ok n1) (ok n2) (ok n3) (ok n4) (ok n5) (ok n6) (ok n7) f a h =
    (n1, n2, n3, n4, n5, n6, n7, refl, refl, refl, refl, refl, refl, refl, cc)
all_seven (fail x) r2 r3 r4 r5 r6 r7 f a h = absurd (fail_not_ok x a h)
all_seven (ok n1) (fail x) r3 r4 r5 r6 r7 f a h = absurd (fail_not_ok x a h)
all_seven (ok n1) (ok n2) (fail x) r4 r5 r6 r7 f a h = absurd (fail_not_ok x a h)
all_seven (ok n1) (ok n2) (ok n3) (fail x) r5 r6 r7 f a h = absurd (fail_not_ok x a h)
all_seven (ok n1) (ok n2) (ok n3) (ok n4) (fail x) r6 r7 f a h = absurd (fail_not_ok x a h)
all_seven (ok n1) (ok n2) (ok n3) (ok n4) (ok n5) (fail x) r7 f a h = absurd (fail_not_ok x a h)
all_seven (ok n1) (ok n2) (ok n3) (ok n4) (ok n5) (ok n6) (fail x) f a h =
    absurd (fail_not_ok x a h)

-- The metrics out of their seven counts
abbrev metrics_of : ℕ → ℕ → ℕ → ℕ → ℕ → ℕ → ℕ → DashboardMetricsResult
metrics_of n1 n2 n3 n4 n5 n6 n7 = record {
  total_events = n1;
  active_workflows = n2;
  failed_executions = n3;
  tenant_count = n5;
  events_trend = percent_change n6 n7;
  failed_trend = percent_change n3 n4;
}

module _ (audits : Repository audit_column) (executions : Repository execution_column)
    (organizations : Repository organization_column) where
  -- The metrics that a request gets are those that are made of the rows of the tenant in its context, and
  -- of no other tenant's, but for the number of organizations, which is that of all.
  pub execute_metrics-own_metrics :
      (ctx : TenantContext) (now : ℕ) (a : audits.Table) (e : executions.Table)
      (o : organizations.Table) (m : DashboardMetricsResult)
      → execute_metrics audits executions organizations (some ctx) now a e o ≡ ok m
      → m
        ≡ own_metrics now
            (keep (λ x. x.tenant_id === ctx.tenant_id) (audits.rows a))
            (keep (λ x. x.tenant_id === ctx.tenant_id) (executions.rows e))
            (length (organizations.rows o))
  unfolding execute_metrics context_tenant_id get_context own_metrics and_where events_of
      executions_of
  execute_metrics-own_metrics ctx now a e o m h =
      let t = ctx.tenant_id in
      let last = now - day_ms in
      let previous = now - 2 * day_ms in
      let own_event : AuditEventOrm → Bool = λ x. x.tenant_id === t in
      let own_execution : ExecutionOrm → Bool = λ x. x.tenant_id === t in
      let (n1, n2, n3, n4, n5, n6, n7, e1, e2, e3, e4, e5, e6, e7, made) =
        all_seven (audits.count (("tenantId", t) ∷ []) a) (executions.get_count (active_query t) e)
          (executions.get_count (failed_query last t) e)
          (executions.get_count (failed_before_query previous last t) e) (organizations.count [] o)
          (audits.get_count (events_query last t) a)
          (audits.get_count (events_before_query previous last t) a) metrics_of m h in
      let rows = audits.rows a in
      let runs = executions.rows e in
      let is_failed = has_status (codes "failed") in
      let c1 = audits.count_matches _ a n1 e1 ∙ ap length (own_events t rows) in
      let c2 =
        executions.count_rows (active_query t) e n2 e2 ∙ ap length (two_fit own_execution _ runs) in
      let c3 =
        executions.count_rows (failed_query last t) e n3 e3
        ∙ ap length (three_fit own_execution is_failed _ runs) in
      let c4 =
        executions.count_rows (failed_before_query previous last t) e n4 e4
        ∙ ap length (four_fit own_execution is_failed _ _ runs) in
      let c5 =
        organizations.count_matches [] o n5 e5
        ∙ ap length (all_rows organization_column (organizations.rows o)) in
      let c6 =
        audits.count_rows (events_query last t) a n6 e6 ∙ ap length (two_fit own_event _ rows) in
      let c7 =
        audits.count_rows (events_before_query previous last t) a n7 e7
        ∙ ap length (three_fit own_event _ _ rows) in
      made ∙ (λ i. metrics_of (c1 i) (c2 i) (c3 i) (c4 i) (c5 i) (c6 i) (c7 i))
