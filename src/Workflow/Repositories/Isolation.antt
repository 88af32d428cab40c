-- ===== src/Workflow/Repositories/Isolation.antt =====
-- The executions and definitions that a request can reach through the repositories of workflow.
use multi_tenant_saa_s_platf.Base.{
  ℕ, ◌≡◌, refl, inl, inr, Bool, true, Option, none, some, List, [], ◌∷◌, map, Text, ok, fail,
  Exception, arith, Result-cases, text_eq_iff, All, all, ◌===◌, get_or, min, ◌≤◌, ◌-◌, ◌*◌,
  Option-cases, length, length-map,
}
use multi_tenant_saa_s_platf.Kernel.Context.{TenantContext}
use multi_tenant_saa_s_platf.Kernel.Pagination.{PaginationOptions, PaginatedResult}
use multi_tenant_saa_s_platf.Kernel.Repository.{
  Repository, SelectQuery, fits, scoped_where, scoped_qb, guard_tenant_ownership, require_tenant_id,
  and_where,
}
use multi_tenant_saa_s_platf.Kernel.Repository.Isolation.{
  ActsFor, guard_tenant_ownership_iff, require_tenant_id_iff, scoped_id,
}
use multi_tenant_saa_s_platf.Workflow.Execution.{
  WorkflowExecution, WorkflowExecutionStatus, execution_status_value,
}
use multi_tenant_saa_s_platf.Workflow.Repositories.{
  ExecutionOrm, execution_column, find_execution, find_many, find_by_definition, paged,
  save_execution, execution_to_domain,
}

-- A lookup that finds an execution was made for the tenant that owns it, and gives that of the id. It
-- never writes.
pub find_execution-own :
    (repo : Repository execution_column) (store : Option TenantContext) (now now' : ℕ) (id : Text)
    (t t' : repo.Table) (e : WorkflowExecution)
    → find_execution repo store now now' id t ≡ (ok (some e), t')
    → ActsFor store e.tenant_id × (e.id ≡ id) × (t' ≡ t)
unfolding find_execution execution_to_domain execution_column
find_execution-own repo store now now' id t t' e h =
    elim (Result-cases (scoped_where store (("id", id) ∷ []))) [
      | inl (conditions, c) ↦ elim (Result-cases (repo.find_one conditions t)) [
        | inl (none, f) ↦ ground arith
        | inl (some orm, f) ↦
            let (own, same) =
              scoped_id execution_column store id conditions orm c
                (repo.find_one_fits conditions t orm f) in
            let tenant : orm.tenant_id ≡ e.tenant_id = ground arith in
            let same_id : orm.id ≡ e.id = ground arith in
            (rw (← tenant) own, ground arith, ground arith)
        | inr (x, f) ↦ ground arith
      ]
      | inr (x, c) ↦ ground arith
    ]

-- An execution is only ever saved for a request that acts for its tenant: for any other the call
-- throws and the table stays as it was.
pub save_execution-own :
    (repo : Repository execution_column) (store : Option TenantContext) (now now' : ℕ)
    (e saved : WorkflowExecution) (t t' : repo.Table)
    → (save_execution repo store now now' e t ≡ (ok saved, t') → ActsFor store e.tenant_id)
      × (¬ ActsFor store e.tenant_id
          → (x : Exception) × (save_execution repo store now now' e t ≡ (fail x, t)))
unfolding save_execution
save_execution-own repo store now now' e saved t t' =
    elim (Result-cases (guard_tenant_ownership store e.tenant_id)) [
      | inl (tt, g) ↦
          let own = (guard_tenant_ownership_iff store e.tenant_id).0 g in
          (λ h. own, λ foreign. absurd (foreign own))
      | inr (x, g) ↦ (λ h. ground arith, λ foreign. (x, ground arith))
    ]

-- The rows that fit a query which begins with the tenant's condition are that tenant's.
tenant_rows :
    (store : Option TenantContext) (tenant : Text) (now now' : ℕ)
    (filters : List (ExecutionOrm → Bool)) (orms : List ExecutionOrm)
    → ActsFor store tenant
    → all (fits ((λ (e : ExecutionOrm). execution_column "tenantId" e === tenant) ∷ filters)) orms
      ≡ true
    → All (λ e. ActsFor store e.tenant_id) (map (execution_to_domain now now') orms)
unfolding fits execution_to_domain execution_column
tenant_rows store tenant now now' filters [] acts h = tt
tenant_rows store tenant now now' filters (e ∷ orms) acts h =
    let same : tenant ≡ e.tenant_id = ground (arith, text_eq_iff e.tenant_id tenant) in
    (rw (← same) acts, tenant_rows store tenant now now' filters orms acts (ground arith))

module _ (repo : Repository execution_column) (store : Option TenantContext) (now now' : ℕ) where
  -- A page of the tenant's executions, of at most a hundred, after which nothing is written.
  abbrev pub Listed : PaginatedResult WorkflowExecution → repo.Table → repo.Table → Type 0
  Listed page t t' =
      All (λ e. ActsFor store e.tenant_id) page.items
      × (length page.items ≤ 100)
      × (page.meta.limit ≤ 100)
      × (t' ≡ t)

  paged-own :
      (tenant : Text) (options : PaginationOptions) (query : SelectQuery ExecutionOrm)
      (filters : List (ExecutionOrm → Bool)) (t t' : repo.Table)
      (page : PaginatedResult WorkflowExecution)
      → ActsFor store tenant
      → query.filters ≡ (λ (e : ExecutionOrm). execution_column "tenantId" e === tenant) ∷ filters
      → paged repo store now now' options query t ≡ (ok page, t')
      → Listed page t t'
  unfolding paged
  paged-own tenant options query filters t t' page acts conditions h =
      let asked : SelectQuery ExecutionOrm = record query {
        order_desc = some "createdAt";
        skip = (get_or options.page 1 - 1) * min (get_or options.limit 20) 100;
        take = some (min (get_or options.limit 20) 100);
      } in
      elim (Result-cases (repo.get_many_and_count asked t)) [
        | inl ((orms, total), e) ↦
            let fit : all
                  (fits
                    ((λ (e : ExecutionOrm). execution_column "tenantId" e === tenant) ∷ filters))
                  orms
                ≡ true =
              rw (← conditions) (repo.many_fit asked t orms total e) in
            let items : map (execution_to_domain now now') orms ≡ page.items = ground arith in
            let few = repo.many_take asked t orms total _ e refl in
            let same_length : length (map (execution_to_domain now now') orms) ≡ length orms =
              length-map (execution_to_domain now now') orms in
            (
              rw (← items) (tenant_rows store tenant now now' filters orms acts fit),
              rw (← items, same_length) (omega arith),
              ground arith,
              ground arith,
            )
        | inr (x, e) ↦ ground arith
      ]

  -- The query that `scopedQb` begins for a tenant.
  abbrev tenant_query : Text → SelectQuery ExecutionOrm
  tenant_query tenant = record {
    filters = (λ e. execution_column "tenantId" e === tenant) ∷ [];
    order_desc = none;
    skip = 0;
    take = none;
  }

  -- A listing of executions, by status or of one definition, holds only executions of the tenant that
  -- the request acts for, at most a hundred of them, its limit is at most a hundred too, and it writes
  -- nothing.
  pub listings-own :
      (status : Option WorkflowExecutionStatus) (definition_id : Text) (options : PaginationOptions)
      (t t' : repo.Table) (page : PaginatedResult WorkflowExecution)
      → (find_many repo store now now' status options t ≡ (ok page, t') → Listed page t t')
        × (find_by_definition repo store now now' definition_id options t ≡ (ok page, t')
            → Listed page t t')
  unfolding find_many find_by_definition scoped_qb
  listings-own status definition_id options t t' page =
      elim (Result-cases (require_tenant_id store)) [
        | inl (tenant, r) ↦
            let acts = (require_tenant_id_iff store tenant).0 r in
            (
              λ h. elim (Option-cases status) [
                | inl missing ↦
                    paged-own tenant options (tenant_query tenant) [] t t' page acts refl
                      (ground arith)
                | inr (s, given) ↦
                    paged-own tenant options
                      (and_where (λ e. execution_status_value e.status === execution_status_value s)
                        (tenant_query tenant))
                      _ t t' page acts refl (ground arith)
              ],
              λ h.
                  paged-own tenant options
                    (and_where (λ e. e.definition_id === definition_id) (tenant_query tenant)) _ t
                    t' page acts refl (ground arith),
            )
        | inr (x, r) ↦ (λ h. ground arith, λ h. ground arith)
      ]
